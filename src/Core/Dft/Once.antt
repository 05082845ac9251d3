-- ===== src/Core/Dft/Once.antt =====
-- The first binary window of a group decides.
use iptsd_android.Prelude.{
  ℕ, ◌<◌, ◌≡◌, refl, sym, ◌∙◌, ap, Bool, true, false, not, ◌||◌, Option, none, some, ok, length,
  arith, leb, if◌then◌else◌,
}
use iptsd_android.Prelude.Float.{Float}
use iptsd_android.Ipts.Data.{DftWindow}
use iptsd_android.Core.Dft.{DftConfig, DftStylus, Method, same_group}
use iptsd_android.Core.Dft.Input.{is_some, handle_dft_binary_mpp_2, start_group, decide_button}
use iptsd_android.Core.Dft.Deciding.{deciding-Holds}
use iptsd_android.Core.Dft.Valid.{IsEven}

same_group_refl : (g : Option ℕ) → is_some g ≡ true → same_group g g ≡ true
same_group_refl none h = cc
same_group_refl (some n) h = ground arith

same_group-eq : (a b : Option ℕ) → same_group a b ≡ true → a ≡ b
same_group-eq (some a) (some b) h = ap some (ground (arith, h))
same_group-eq (some a) none h = cc
same_group-eq none b h = cc

module _ {F : Type 0} ⦃fl : Float F⦄ (config : DftConfig F) where
  handle-group :
      (w : DftWindow) (s : DftStylus F)
      → IsEven w
      → 5 < length w.x
      → is_some w.group ≡ true
      → (handle_dft_binary_mpp_2 config w s).0.mppv2_binary_group ≡ w.group
  unfolding handle_dft_binary_mpp_2
  handle-group w s even h known =
      let test =
        leb (length w.x) 5 || (not (is_some w.group) || same_group s.mppv2_binary_group w.group) in
      if-at test _ _ s
        (λ e. same_group-eq s.mppv2_binary_group w.group (ground (arith, e, h, known)))
        λ e.
          (deciding-Holds IsOf w 4 5 (decide_button config) even (omega (arith, h)) h (λ a b t p. p)
            (start_group w.group s) refl).0
    where
      IsOf : DftStylus F → Type 0
      IsOf t = t.mppv2_binary_group ≡ w.group

      if-at :
          (b : Bool) (m n : Method F) (t : DftStylus F)
          → (b ≡ true → (m t).0.mppv2_binary_group ≡ w.group)
          → (b ≡ false → (n t).0.mppv2_binary_group ≡ w.group)
          → ((if b then m else n) t).0.mppv2_binary_group ≡ w.group
      if-at true m n t hm hn = hm refl
      if-at false m n t hm hn = hn refl

  skipped :
      (w : DftWindow) (s : DftStylus F)
      → is_some w.group ≡ true
      → s.mppv2_binary_group ≡ w.group
      → handle_dft_binary_mpp_2 config w s ≡ (s, ok tt)
  unfolding handle_dft_binary_mpp_2
  skipped w s known here =
      let same : same_group s.mppv2_binary_group w.group ≡ true =
        ap (λ g. same_group g w.group) here ∙ same_group_refl w.group known in
      let test : (leb (length w.x) 5
            || (not (is_some w.group) || same_group s.mppv2_binary_group w.group))
          ≡ true =
        ground (arith, same) in
      rw test refl

  -- A binary window of a known group with more than five rows, as many on both axes, decides for its
  -- group: any other binary window of the group that comes next changes nothing.
  pub handle_dft_binary_mpp_2-once :
      (w next : DftWindow) (s : DftStylus F)
      → IsEven w
      → 5 < length w.x
      → is_some w.group ≡ true
      → next.group ≡ w.group
      → handle_dft_binary_mpp_2 config next (handle_dft_binary_mpp_2 config w s).0
        ≡ ((handle_dft_binary_mpp_2 config w s).0, ok tt)
  handle_dft_binary_mpp_2-once w next s even h known same =
      skipped next (handle_dft_binary_mpp_2 config w s).0 (ap is_some same ∙ known)
        (handle-group w s even h known ∙ sym same)
