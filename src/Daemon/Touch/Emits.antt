-- ===== src/Daemon/Touch/Emits.antt =====
-- What the emitting methods of `TouchDevice` write, as the kernel sees it. All of them change
-- nothing of the device but the events written.
use iptsd_android.Prelude.{
  ℕ, ◌^◌, ◌<◌, ◌≡◌, refl, true, false, not, ◌&&◌, ◌||◌, some, List, [], ◌∷◌, All, ok, arith, ◌==◌,
  lt→ltb,
}
use iptsd_android.Prelude.Int.{ℤ, pos, negsuc}
use iptsd_android.Prelude.Float.{Float}
use iptsd_android.Prelude.Act.{each}
use iptsd_android.Contacts.Contact.{Contact}
use iptsd_android.Daemon.Input.{
  rounded, InputEvent, event, touching, pressed, btn_touch, abs_mt_slot, abs_mt_tracking_id,
  abs_mt_touch_major, abs_mt_touch_minor, abs_mt_orientation, abs_mt_position_x, abs_mt_position_y,
  abs_x, abs_y,
}
use iptsd_android.Daemon.Touch.Defs.{
  TouchDevice, member, insert, difference, emit, lift_multitouch, lift_slot, lift_singletouch,
  lift_all, position, emit_multitouch, emit_singletouch,
}

-- Indices that fit an `i32`.
abbrev pub IsBounded : List ℕ → Type 0
IsBounded = All λ i. i < 2 ^ 31

abbrev pub wrote : {F : Type 0} → TouchDevice F → List InputEvent → TouchDevice F
wrote d ws = record d { written = ws }

pub member-insert : (j i : ℕ) (s : List ℕ) → member j (insert i s) ≡ (i == j || member j s)
unfolding insert
member-insert j i [] = ground arith
member-insert j i (k ∷ s) = ground (arith, member-insert j i s)

pub member-difference :
    (j : ℕ) (s t : List ℕ) → member j (difference s t) ≡ (member j s && not (member j t))
unfolding difference
member-difference j [] t = refl
member-difference j (k ∷ s) t = ground (arith, member-difference j s t)

pub insert-IsBounded : (i : ℕ) (s : List ℕ) → i < 2 ^ 31 → IsBounded s → IsBounded (insert i s)
unfolding insert
insert-IsBounded i [] h b = (h, tt)
insert-IsBounded i (k ∷ s) h b = ground (arith, insert-IsBounded i s h b.1)

pub difference-IsBounded : (s t : List ℕ) → IsBounded s → IsBounded (difference s t)
unfolding difference
difference-IsBounded [] t b = tt
difference-IsBounded (k ∷ s) t b = ground (arith, difference-IsBounded s t b.1)

module _ {F : Type 0} where
  pub lift_multitouch_lem :
      (i : ℕ) (d : TouchDevice F)
      → i < 2 ^ 31
      → lift_multitouch i d ≡ (
        wrote d (event abs_mt_tracking_id (negsuc 0) ∷ event abs_mt_slot (pos i) ∷ d.written),
        ok tt,
      )
  unfolding lift_multitouch emit
  lift_multitouch_lem i d h = rw (lt→ltb i (2 ^ 31) h) refl

  pub each-lift_multitouch :
      (is : List ℕ) (d : TouchDevice F)
      → IsBounded is
      → (ws : List InputEvent) × (each lift_multitouch is d ≡ (wrote d ws, ok tt))
        × ((j : ℕ) → touching ws j ≡ (touching d.written j && not (member j is)))
        × (pressed ws ≡ pressed d.written)
  unfolding each lift_multitouch emit
  each-lift_multitouch [] d b = (d.written, refl, λ j. ground arith, refl)
  each-lift_multitouch (i ∷ is) d (h, b) =
      let ws₁ : List InputEvent =
        event abs_mt_tracking_id (negsuc 0) ∷ event abs_mt_slot (pos i) ∷ d.written in
      let (ws, run, touch, key) = each-lift_multitouch is (wrote d ws₁) b in
      (ws, rw (lt→ltb i (2 ^ 31) h) run, λ j. ground (arith, touch j), key)

  each-lift_slot :
      (is : List ℕ) (d : TouchDevice F)
      → IsBounded is
      → (ws : List InputEvent) × (each lift_slot is d ≡ (wrote d ws, ok tt))
        × ((j : ℕ) → touching ws j ≡ (touching d.written j && not (member j is)))
  unfolding each lift_slot lift_multitouch emit
  each-lift_slot [] d b = (d.written, refl, λ j. ground arith)
  each-lift_slot (i ∷ is) d (h, b) =
      let slot_event = event abs_mt_slot (pos i) in
      let ws₁ : List InputEvent =
        event abs_mt_tracking_id (negsuc 0) ∷ slot_event ∷ slot_event ∷ d.written in
      let (ws, run, touch) = each-lift_slot is (wrote d ws₁) b in
      (ws, rw (lt→ltb i (2 ^ 31) h) run, λ j. ground (arith, touch j))

  -- Every contact of this and of the last frame is lifted, and the touch key is released.
  pub lift_all_lem :
      (d : TouchDevice F)
      → IsBounded d.current
      → IsBounded d.last
      → (ws : List InputEvent) × (lift_all d ≡ (wrote d ws, ok tt))
        × ((j : ℕ)
            → touching ws j ≡ (touching d.written j && not (member j d.current || member j d.last)))
        × (pressed ws ≡ false)
  unfolding lift_all lift_singletouch emit
  lift_all_lem d b c =
      let (ws₁, run₁, touch₁) = each-lift_slot d.current d b in
      let (ws₂, run₂, touch₂) = each-lift_slot d.last (wrote d ws₁) c in
      (
        event btn_touch (pos 0) ∷ ws₂,
        rw (run₁, run₂) refl,
        λ j. ground (arith, touch₁ j, touch₂ j),
        refl,
      )

-- The coordinates of a contact can be rounded to an `i32`.
pub record IsRoundable {F : Type 0} ⦃fl : Float F⦄ (c : Contact F) : Type 0 where
  pub x : (z : ℤ) × (position c.mean_x 9600 ≡ ok z)
  pub y : (z : ℤ) × (position c.mean_y 7200 ≡ ok z)
  pub angle : (z : ℤ) × (rounded (fl.mul c.orientation (fl.of_nat 180)) ≡ ok z)
  pub major : (z : ℤ) × (rounded (fl.mul (fl.max_coeff c.size_x c.size_y) (fl.of_nat 12000)) ≡ ok z)
  pub minor : (z : ℤ) × (rounded (fl.mul (fl.min_coeff c.size_x c.size_y) (fl.of_nat 12000)) ≡ ok z)

module _ {F : Type 0} ⦃fl : Float F⦄ where
  pub emit_multitouch_lem :
      (i : ℕ) (c : Contact F) (d : TouchDevice F)
      → i < 2 ^ 31
      → c.index ≡ some i
      → IsRoundable c
      → (ws : List InputEvent) × (emit_multitouch c d ≡ (wrote d ws, ok tt))
        × ((j : ℕ) → touching ws j ≡ (i == j || touching d.written j))
        × (pressed ws ≡ pressed d.written)
  unfolding emit_multitouch emit
  emit_multitouch_lem i c d h e r =
      let (x, ex) = r.x in
      let (y, ey) = r.y in
      let (a, ea) = r.angle in
      let (m, em) = r.major in
      let (n, en) = r.minor in
      let ws : List InputEvent =
        event abs_mt_touch_minor n
        ∷ event abs_mt_touch_major m
        ∷ event abs_mt_orientation a
        ∷ event abs_mt_position_y y
        ∷ event abs_mt_position_x x
        ∷ event abs_mt_tracking_id (pos i)
        ∷ event abs_mt_slot (pos i)
        ∷ d.written in
      (ws, rw (e, lt→ltb i (2 ^ 31) h, ex, ey, ea, em, en) refl, λ j. ground arith, refl)

  pub emit_singletouch_lem :
      (c : Contact F) (d : TouchDevice F)
      → IsRoundable c
      → (ws : List InputEvent) × (emit_singletouch c d ≡ (wrote d ws, ok tt))
        × ((j : ℕ) → touching ws j ≡ touching d.written j)
        × (pressed ws ≡ true)
  unfolding emit_singletouch emit
  emit_singletouch_lem c d r =
      let (x, ex) = r.x in
      let (y, ey) = r.y in
      let ws : List InputEvent =
        event abs_y y ∷ event abs_x x ∷ event btn_touch (pos 1) ∷ d.written in
      (ws, rw (ex, ey) refl, λ j. refl, refl)
