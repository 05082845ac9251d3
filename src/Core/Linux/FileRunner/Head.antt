-- ===== src/Core/Linux/FileRunner/Head.antt =====
-- The constructor of `FileRunner` leaves the reader inside the file.
use iptsd_android.Prelude.{ℕ, zero, suc, ◌≡◌, subst, inl, inr, Option, List, Result, ok, err}
use iptsd_android.Prelude.Word.{u8_at}
use iptsd_android.Prelude.Act.{Act, continue}
use iptsd_android.Reader.{Reader, read}
use iptsd_android.Reader.Bounds.{IsValid, read_cases, advance-IsValid}
use iptsd_android.Core.Device.{DeviceInfo, info_width, metadata_width}
use iptsd_android.Ipts.Data.{Metadata}
use iptsd_android.Core.Linux.FileRunner.{metadata_if, read_head, made, opened, FileRunner, moved}

-- What is read at the start of a file leaves a reader inside it.
unfoldable pub IsInside : {A : Type 0} → Reader × Result A → Type 0
IsInside p = IsValid p.0

moved-IsInside : (n : ℕ) (r : Reader) → IsValid r → IsInside (moved r (read n r))
unfolding IsInside
moved-IsInside n r v = elim (read_cases n r v) [
  | inl (h, e) ↦ rw e (advance-IsValid n r v h)
  | inr (h, e) ↦ rw e v
]

continue-IsInside :
    {A B : Type 0} (p : Reader × Result A) (f : A → Act Reader B)
    → IsInside p
    → ((a : A) → IsInside (f a p.0))
    → IsInside (continue p f)
unfolding IsInside
continue-IsInside (r, ok a) f h k = k a
continue-IsInside (r, err e) f h k = h

metadata_if-IsInside : (n : ℕ) (r : Reader) → IsValid r → IsInside (metadata_if n r)
unfolding IsInside
metadata_if-IsInside zero r v = v
metadata_if-IsInside (suc n) r v =
    let p = moved r (read metadata_width r) in
    continue-IsInside p _ (moved-IsInside metadata_width r v)
      λ bs. moved-IsInside metadata_width r v

pub read_head-IsInside : (r : Reader) → IsValid r → IsInside (read_head r)
unfolding read_head IsInside
read_head-IsInside r v =
    let p = moved r (read info_width r) in
    let hp : IsValid p.0 = moved-IsInside info_width r v in
    continue-IsInside p _ hp λ bs.
      let q = moved p.0 (read 1 p.0) in
      let hq : IsValid q.0 = moved-IsInside 1 p.0 hp in
      continue-IsInside q _ hq λ has_meta.
        let m = metadata_if (u8_at has_meta 0) q.0 in
        let hm : IsValid m.0 = metadata_if-IsInside (u8_at has_meta 0) q.0 hq in
        continue-IsInside m _ hm λ meta. hm

module _ {S : Type 0} (make : DeviceInfo → Option Metadata → Result S) where
  made-IsInside :
      (bytes : List ℕ) (i : DeviceInfo) (p : Reader × Result S) (f : FileRunner S)
      → IsValid p.0
      → made bytes i p ≡ ok f
      → IsValid f.reader
  made-IsInside bytes i (r, ok s) f v e =
      let same : record { file = bytes; info = i; application = s; reader = r } ≡ f = cc in
      subst (λ g. IsValid g.reader) same v
  made-IsInside bytes i (r, err x) f v e = absurd (cc)

  pub opened-IsInside :
      (bytes : List ℕ) (p : Reader × Result (DeviceInfo × Option Metadata)) (f : FileRunner S)
      → IsValid p.0
      → opened make bytes p ≡ ok f
      → IsValid f.reader
  opened-IsInside bytes (r, ok (i, meta)) f v e = made-IsInside bytes i (r, make i meta) f v e
  opened-IsInside bytes (r, err x) f v e = absurd (cc)
