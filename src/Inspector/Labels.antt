-- ===== src/Inspector/Labels.antt =====
-- FixInspector.tsx: the labels of the rows, and the filters.
use low_latency_matching_eng.Prelude.{
  Option, none, some, Bool, true, false, Text, codes, text_eq, text_eq_refl, text_eq_sound,
  true≢false, ◌≡◌, ◌≢◌, ◌↔◌, refl, sym, ap, ◌∙◌, if◌then◌else◌,
}
use low_latency_matching_eng.Protocol.Frames.{
  ExecType, order_accepted, order_filled, order_partially_filled, order_cancelled, order_rejected,
  order_expired,
}
use low_latency_matching_eng.Protocol.Fix.{fix_msg_type}
use low_latency_matching_eng.State.Model.{InspectorEntry, fix_entry, exec_entry}
use low_latency_matching_eng.Inspector.{
  new_orders, cancels, matches_filter, row_label, fix_label, exec_type_text, type_is,
}

clash {ℓ} : {G : Type ℓ} (s t : Text) → text_eq s t ≡ false → s ≡ t → G
clash s t n e = absurd (true≢false (sym (text_eq_refl s) ∙ ap (text_eq s) e ∙ n))

abbrev label_by : Bool → Bool → Text
label_by is_new is_cancel =
    if is_new then codes "NEW" else if is_cancel then codes "CANCEL" else codes "FIX"

label_by_lem :
    (d f : Bool)
    → (d ≡ true → f ≡ false)
    → ((d ≡ true) ↔ (label_by d f ≡ codes "NEW")) × ((f ≡ true) ↔ (label_by d f ≡ codes "CANCEL"))
label_by_lem true true one = absurd (true≢false (one refl))
label_by_lem true false one =
    ((λ h. refl, λ h. refl), (λ h. cc, λ h. clash (codes "NEW") (codes "CANCEL") refl h))
label_by_lem false true one =
    ((λ h. cc, λ h. clash (codes "CANCEL") (codes "NEW") refl h), (λ h. refl, λ h. refl))
label_by_lem false false one = (
  (λ h. cc, λ h. clash (codes "FIX") (codes "NEW") refl h),
  (λ h. cc, λ h. clash (codes "FIX") (codes "CANCEL") refl h),
)

one_type : (t : Option Text) → type_is (codes "D") t ≡ true → type_is (codes "F") t ≡ false
one_type none h = refl
one_type (some s) h = ap (λ x. text_eq x (codes "F")) (text_eq_sound s (codes "D") h)

exec_named : (t : ExecType) → (exec_type_text t ≢ codes "NEW") × (exec_type_text t ≢ codes "CANCEL")
exec_named order_accepted = (clash _ _ refl, clash _ _ refl)
exec_named order_filled = (clash _ _ refl, clash _ _ refl)
exec_named order_partially_filled = (clash _ _ refl, clash _ _ refl)
exec_named order_cancelled = (clash _ _ refl, clash _ _ refl)
exec_named order_rejected = (clash _ _ refl, clash _ _ refl)
exec_named order_expired = (clash _ _ refl, clash _ _ refl)

-- The filters and the labels agree: NEW lets through exactly the entries whose row is labelled NEW, and
-- CANCEL exactly those labelled CANCEL.
row_label_iff :
    (e : InspectorEntry)
    → ((matches_filter e new_orders ≡ true) ↔ (row_label e ≡ codes "NEW"))
      × ((matches_filter e cancels ≡ true) ↔ (row_label e ≡ codes "CANCEL"))
unfolding matches_filter row_label fix_label
row_label_iff (fix_entry f) =
    let t = fix_msg_type (codes f.raw) in
    label_by_lem (type_is (codes "D") t) (type_is (codes "F") t) (one_type t)
row_label_iff (exec_entry f) =
    let (not_new, not_cancel) = exec_named f.exec_type in
    ((λ h. cc, λ h. absurd (not_new h)), (λ h. cc, λ h. absurd (not_cancel h)))
