-- ===== src/Daemon/Uinput/Writes.antt =====
-- The touch device writes only events that its constructor has announced to the kernel.
use iptsd_android.Prelude.{
  ℕ, ◌≡◌, refl, Bool, true, false, not, ◌&&◌, Option, none, some, List, [], ◌∷◌, ok, ◌==◌,
  if◌then◌else◌,
}
use iptsd_android.Prelude.Int.{pos}
use iptsd_android.Prelude.Float.{Float}
use iptsd_android.Prelude.Act.{Act, continue, pure, each}
use iptsd_android.Contacts.Contact.{Contact, or_true}
use iptsd_android.Core.Linux.Runner.Kept.{continue-Kept, choice-Kept}
use iptsd_android.Daemon.Input.{Code, InputEvent, event, syn_report}
use iptsd_android.Daemon.Input
use iptsd_android.Daemon.Touch.Defs.{TouchDevice}
use iptsd_android.Daemon.Touch.Defs as Touch
use iptsd_android.Daemon.Uinput.{UinputDevice}
use iptsd_android.Daemon.Uinput.Nodes.{touch_node}
use iptsd_android.Daemon.Uinput.Announced.{AreAnnounced, IsTouchNode, touch_node-IsTouchNode}

module _ {F : Type 0} (u : UinputDevice) (node : IsTouchNode u) where
  abbrev Known : TouchDevice F → Type 0
  Known d = AreAnnounced u d.written

  lift_multitouch-Known :
      (index : ℕ) (d : TouchDevice F) → Known d → Known (Touch.lift_multitouch index d).0
  unfolding Touch.lift_multitouch Touch.emit
  lift_multitouch-Known index d h =
      continue-Kept Known (d, Input.index_i32 index) _ h λ i t k. (node.tracking_id, (node.slot, k))

  each-Known :
      {A : Type 0} (f : A → Touch.Method F) (xs : List A) (d : TouchDevice F)
      → ((x : A) (t : TouchDevice F) → Known t → Known (f x t).0)
      → Known d
      → Known (each f xs d).0
  unfolding each
  each-Known f [] d keeps h = h
  each-Known f (x ∷ xs) d keeps h =
      continue-Kept Known (f x d) _ (keeps x d h) λ done t k. each-Known f xs t keeps k

  lift_slot-Known : (index : ℕ) (d : TouchDevice F) → Known d → Known (Touch.lift_slot index d).0
  unfolding Touch.lift_slot Touch.lift_multitouch Touch.emit
  lift_slot-Known index d h =
      continue-Kept Known (d, Input.index_i32 index) _ h
        λ i t k.
          lift_multitouch-Known index (record t { written = event Input.abs_mt_slot i ∷ t.written })
            (node.slot, k)

  lift_all-Known : (d : TouchDevice F) → Known d → Known (Touch.lift_all d).0
  unfolding Touch.lift_all Touch.lift_singletouch Touch.emit
  lift_all-Known d h =
      continue-Kept Known (each Touch.lift_slot d.current d) _
        (each-Known Touch.lift_slot d.current d lift_slot-Known h)
        λ done t k.
          continue-Kept Known (each Touch.lift_slot d.last t) _
            (each-Known Touch.lift_slot d.last t lift_slot-Known k) λ done' v l. (node.touch, l)

module _ {F : Type 0} ⦃fl : Float F⦄ (u : UinputDevice) (node : IsTouchNode u) where
  emit_multitouch-Known :
      (contact : Contact F) (d : TouchDevice F)
      → Known u node d
      → Known u node (Touch.emit_multitouch contact d).0
  unfolding Touch.emit_multitouch Touch.emit
  emit_multitouch-Known contact d h =
      continue-Kept (Known u node) (d, Input.index_i32 (Touch.index_or_0 contact.index)) _ h
        λ i t1 k1.
          continue-Kept (Known u node) (t1, Touch.position contact.mean_x 9600) _ k1
            λ x t2 k2.
              continue-Kept (Known u node) (t2, Touch.position contact.mean_y 7200) _ k2
                λ y t3 k3.
                  continue-Kept (Known u node)
                    (t3, Input.rounded (fl.mul contact.orientation (fl.of_nat 180))) _ k3
                    λ angle t4 k4.
                      continue-Kept (Known u node)
                        (
                          t4,
                          Input.rounded (
                              fl.mul (fl.max_coeff contact.size_x contact.size_y)
                                (fl.of_nat 12000)),
                        )
                        _ k4
                        λ major t5 k5.
                          continue-Kept (Known u node)
                            (
                              t5,
                              Input.rounded (
                                  fl.mul (fl.min_coeff contact.size_x contact.size_y)
                                    (fl.of_nat 12000)),
                            )
                            _ k5
                            λ minor t6 k6. (
                              node.touch_minor,
                              (
                                node.touch_major,
                                (
                                  node.orientation,
                                  (
                                    node.position_y,
                                    (node.position_x, (node.tracking_id, (node.slot, k6))),
                                  ),
                                ),
                              ),
                            )

  emit_singletouch-Known :
      (contact : Contact F) (d : TouchDevice F)
      → Known u node d
      → Known u node (Touch.emit_singletouch contact d).0
  unfolding Touch.emit_singletouch Touch.emit
  emit_singletouch-Known contact d h =
      continue-Kept (Known u node) (d, Touch.position contact.mean_x 9600) _ h
        λ x t k.
          continue-Kept (Known u node) (t, Touch.position contact.mean_y 7200) _ k
            λ y v l. (node.y, (node.x, (node.touch, l)))

  process_indexed-Known :
      (index : ℕ) (contact : Contact F) (reset : Bool) (d : TouchDevice F)
      → Known u node d
      → Known u node (Touch.process_indexed index contact reset d).0
  unfolding Touch.process_indexed
  process_indexed-Known index contact reset d h =
      let gone = Touch.is_lifted d.config contact in
      let handled : Touch.Method F =
        if gone then Touch.lift_multitouch index else Touch.emit_multitouch contact in
      let single : Act (TouchDevice F) Bool =
        λ t. continue (Touch.emit_singletouch contact t) λ done v. (v, ok false) in
      let last : Act (TouchDevice F) Bool =
        if d.single_index == index && not gone then single else pure reset in
      continue-Kept (Known u node) (handled d) (λ done. last)
        (choice-Kept (Known u node) gone (Touch.lift_multitouch index)
          (Touch.emit_multitouch contact) d (lift_multitouch-Known u node index d h)
          (emit_multitouch-Known contact d h))
        λ done t k.
          choice-Kept (Known u node) (d.single_index == index && not gone) single (pure reset) t
            (continue-Kept (Known u node) (Touch.emit_singletouch contact t)
              (λ done' v. (v, ok false)) (emit_singletouch-Known contact t k) λ done' v l. l)
            k

  by_index-Known :
      (index : Option ℕ) (contact : Contact F) (reset : Bool) (d : TouchDevice F)
      → Known u node d
      → let method : Act (TouchDevice F) Bool = elim index [
        | none ↦ pure reset
        | some i ↦
            if or_true contact.stable then Touch.process_indexed i contact reset else pure reset
      ] in
        Known u node (method d).0
  by_index-Known none contact reset d h = h
  by_index-Known (some i) contact reset d h =
      choice-Kept (Known u node) (or_true contact.stable) (Touch.process_indexed i contact reset)
        (pure reset) d (process_indexed-Known i contact reset d h) h

  process_contact-Known :
      (contact : Contact F) (reset : Bool) (d : TouchDevice F)
      → Known u node d
      → Known u node (Touch.process_contact contact reset d).0
  unfolding Touch.process_contact
  process_contact-Known contact reset d h = by_index-Known contact.index contact reset d h

  process_contacts-Known :
      (contacts : List (Contact F)) (reset : Bool) (d : TouchDevice F)
      → Known u node d
      → Known u node (Touch.process_contacts contacts reset d).0
  unfolding Touch.process_contacts
  process_contacts-Known [] reset d h = h
  process_contacts-Known (contact ∷ contacts) reset d h =
      continue-Kept (Known u node) (Touch.process_contact contact reset d) _
        (process_contact-Known contact reset d h)
        λ reset' t k. process_contacts-Known contacts reset' t k

  process-Known :
      (contacts : List (Contact F)) (d : TouchDevice F)
      → Known u node d
      → Known u node (Touch.process contacts d).0
  unfolding Touch.process Touch.lift_singletouch Touch.emit
  process-Known contacts d h =
      let reselect : List (Contact F) → Touch.Method F = λ cs v. (
        record v {
          written = event Input.btn_touch (pos 0) ∷ v.written;
          single_index = Touch.next_single v.single_index cs;
        },
        ok tt,
      ) in
      continue-Kept (Known u node) (Touch.process_contacts contacts true d) _
        (process_contacts-Known contacts true d h)
        λ reset t k.
          continue-Kept (Known u node) (each Touch.lift_multitouch t.to_lift t) _
            (each-Known u node Touch.lift_multitouch t.to_lift t (lift_multitouch-Known u node) k)
            λ done v l.
              choice-Kept (Known u node) reset (reselect contacts) (pure tt) v (node.touch, l) l

  update-Known :
      (contacts : List (Contact F)) (d : TouchDevice F)
      → Known u node d
      → Known u node (Touch.update contacts d).0
  unfolding Touch.update Touch.update_enabled Touch.search_lifted Touch.sync Touch.emit
  update-Known contacts d h =
      choice-Kept (Known u node) d.enabled (Touch.update_enabled contacts) (pure tt) d enabled h
    where
      searched : TouchDevice F
      searched = (Touch.search_lifted contacts d).0

      enabled : Known u node (Touch.update_enabled contacts d).0
      enabled =
          let chosen : Touch.Method F =
            if Touch.is_blocked contacts searched then Touch.lift_all else Touch.process contacts in
          continue-Kept (Known u node) (chosen searched) (λ done. Touch.sync)
            (choice-Kept (Known u node) (Touch.is_blocked contacts searched) Touch.lift_all
              (Touch.process contacts) searched (lift_all-Known u node searched h)
              (process-Known contacts searched h))
            λ done t k. (refl, k)

-- Let the constructor of the touch device return the node `u`, and let all events that a touch device
-- has written be announced by `u`. Then this is so also after an update with any contacts, also if
-- the update throws: `u` has announced the code of each event that is written.
pub update-AreAnnounced :
    {F : Type 0} ⦃fl : Float F⦄
    → (width height : F) (vendor product : ℕ) (u : UinputDevice) (contacts : List (Contact F))
      (d : TouchDevice F)
    → touch_node width height vendor product ≡ ok u
    → AreAnnounced u d.written
    → AreAnnounced u (Touch.update contacts d).0.written
update-AreAnnounced width height vendor product u contacts d made h =
    update-Known u (touch_node-IsTouchNode width height vendor product u made) contacts d h
