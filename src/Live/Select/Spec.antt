-- ===== src/Live/Select/Spec.antt =====
-- A refresh selects the head of the refresh queue, and transports it in the order of the slots.
use rwkv_srs.Base.{[], ◌∷◌, ℕ, ◌≡◌, List, ℤ, ◌&&◌, not, take, arith, refl}
use rwkv_srs.Features.{FloatOps}
use rwkv_srs.Live.{LivePredictionSessionState, status_at}
use rwkv_srs.Live.Order.{is_marked, all_slots}
use rwkv_srs.Live.Select.{
  select_refresh_membership, select_refresh_membership_unexcluded, collect_transport, is_pending_at,
  named_slots, may_join,
}
use rwkv_srs.Live.Select.Membership.{refresh_queue, joined-queue, joined-transport}
use rwkv_srs.Live.Session.{IsSession}
use rwkv_srs.Live.Status.{is_included, is_pending}
use rwkv_srs.Sorting.{keep, elem}

unexcluded_first :
    (t : LivePredictionSessionState) (v : ℕ)
    → is_pending_at t v ≡ (is_pending (status_at t v) && not (elem v []))
unfolding elem
unexcluded_first t v = ground arith

unexcluded_second :
    (t : LivePredictionSessionState) (v : ℕ)
    → may_join t v ≡ ((is_included (status_at t v) && not (is_marked t v)) && not (elem v []))
unfolding elem
unexcluded_second t v = ground arith

-- For a session in good order and any excluded cards a refresh selects the first slots of the
-- queue, as many as its limit allows: the slots that wait for a refresh, by slot, then the active
-- slots, by rank, without the excluded cards. What it transports are the selected slots, ascending.
pub select_refresh_membership-queue :
    (fl : FloatOps) (s : LivePredictionSessionState) (cards : List ℤ)
    → IsSession fl s
    → ((select_refresh_membership s cards).selected_scratch
        ≡ take s.refresh_limit (refresh_queue s (named_slots s cards)))
      × ((select_refresh_membership s cards).transport_slots
          ≡ keep (λ v. elem v (select_refresh_membership s cards).selected_scratch) (all_slots s))
unfolding select_refresh_membership select_refresh_membership_unexcluded collect_transport
    named_slots
select_refresh_membership-queue fl s [] h = (
  joined-queue fl s h [] is_pending_at may_join unexcluded_first unexcluded_second,
  joined-transport fl s h [] is_pending_at may_join unexcluded_first unexcluded_second,
)
select_refresh_membership-queue fl s (card_id ∷ cards) h =
    let gone = named_slots s (card_id ∷ cards) in
    (
      joined-queue fl s h gone (λ t slot. is_pending_at t slot && not (elem slot gone))
          (λ t slot. may_join t slot && not (elem slot gone)) (λ t v. refl) (λ t v. refl),
      joined-transport fl s h gone (λ t slot. is_pending_at t slot && not (elem slot gone))
          (λ t slot. may_join t slot && not (elem slot gone)) (λ t v. refl) (λ t v. refl),
    )
