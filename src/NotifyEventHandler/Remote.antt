-- ===== src/NotifyEventHandler/Remote.antt =====
-- The processes that are told of an update (NotifyEventRemote and CopyNodeIdentifiers).
use inc_mw_com.Base.{
  ℕ, zero, suc, ◌+◌, ◌*◌, ◌≤◌, ◌<◌, ◌≡◌, refl, sym, ap, ◌∙◌, ◌⊎◌, inl, inr, true, false, List, ◌++◌,
  map, arith, ltb, ltb→lt, ltb→ge, Bool-cases, length, take, drop, All,
}
use inc_mw_com.ElementFqId.{ElementFqId}
use inc_mw_com.Messages.{notify_event_update}
use inc_mw_com.NotifyEventHandler.{
  QualityType, Nodes, sent, NotifyEventHandler, control_data, act, found, ids_from,
  copy_node_identifiers, send_round, targets_loop, update_message, notify_event_remote,
}
use inc_mw_com.NotifyEventHandler.Tables.{
  Ascending, ids_from_all, ids_from-Ascending, ids_from-ids_from, last_of, last_bound,
  ids_from-drop, copy_loop_lem, take-append_drop, take_all, All-take, All-ids_from, All-append,
  Ascending-take, Ascending-append,
}

abbrev pub unchanged : ℕ → Nodes → Nodes
unchanged n nodes = nodes

-- A round copies what fits of the ids that it sees.
targets_step :
    (event_id : ElementFqId) (changed : ℕ → Nodes → Nodes) (nodes : Nodes) (rounds start : ℕ)
    → let rest = ids_from start (found event_id (changed rounds nodes)) in
      targets_loop event_id changed nodes (suc rounds) start
      ≡ send_round (targets_loop event_id changed nodes rounds) (take 20 rest, ltb 20 (length rest))
unfolding targets_loop copy_node_identifiers
targets_step event_id changed nodes rounds start =
    ap (send_round (targets_loop event_id changed nodes rounds))
      (copy_loop_lem 19 (ids_from start (found event_id (changed rounds nodes))))

-- A round on the ascending ids `rest`, where the next round tells those from its start on.
round_undisturbed :
    (again : ℕ → List ℕ) (ids : List ℕ) (rounds start : ℕ)
    → Ascending 0 ids
    → ((next : ℕ) → again next ≡ take (20 * rounds) (ids_from next ids))
    → let rest = ids_from start ids in
      send_round again (take 20 rest, ltb 20 (length rest)) ≡ take (20 * suc rounds) rest
round_undisturbed again ids rounds start a ih = split (Bool-cases (ltb 20 (length rest)))
  where
    rest : List ℕ
    rest = ids_from start ids

    next : ℕ
    next = last_of 19 rest + 1

    sorted : Ascending start rest
    sorted = ids_from-Ascending start 0 ids a

    after : 20 < length rest → again next ≡ take (20 * rounds) (drop 20 rest)
    after h =
        let bound : start ≤ last_of 19 rest = last_bound 19 start rest sorted (omega arith) in
        ih next
        ∙ ap (take (20 * rounds)) (
            sym (ids_from-ids_from start next ids (omega arith))
            ∙ ids_from-drop 19 start rest sorted h)

    split :
        (ltb 20 (length rest) ≡ true) ⊎ (ltb 20 (length rest) ≡ false)
        → send_round again (take 20 rest, ltb 20 (length rest)) ≡ take (20 * suc rounds) rest
    split (inl e) = rw e (
        ap (λ xs. take 20 rest ++ xs) (after (ltb→lt _ _ e))
        ∙ take-append_drop 20 (20 * rounds) (20 * suc rounds) rest (omega arith))
    split (inr e) =
        let few : length rest ≤ 20 = ltb→ge _ _ e in
        rw e (take_all 20 rest few ∙ sym (take_all (20 * suc rounds) rest (omega arith)))

-- The ids from `start` on, as many as the rounds can copy.
targets_undisturbed :
    (event_id : ElementFqId) (nodes : Nodes) (rounds start : ℕ)
    → Ascending 0 (found event_id nodes)
    → targets_loop event_id unchanged nodes rounds start
      ≡ take (20 * rounds) (ids_from start (found event_id nodes))
unfolding targets_loop
targets_undisturbed event_id nodes zero start a = refl
targets_undisturbed event_id nodes (suc rounds) start a =
    targets_step event_id unchanged nodes rounds start
    ∙ round_undisturbed (targets_loop event_id unchanged nodes rounds) (found event_id nodes) rounds
        start a (λ next. targets_undisturbed event_id nodes rounds next a)

-- While the set of an event does not change, NotifyEvent sends its message to the interested processes in the order of their ids, to each once: to all of them, or to the first 5100 if there are more. The set is ascending, as it is kept.
pub notify_event_remote_undisturbed :
    (level : QualityType) (event_id : ElementFqId) (h : NotifyEventHandler)
    → let nodes = found event_id (control_data h level).event_update_interested_nodes in
      Ascending 0 nodes
      → notify_event_remote unchanged level event_id h
        ≡ act h (
            map
              (λ node. sent level node (update_message h notify_event_update event_id))
              (take 5100 nodes))
unfolding notify_event_remote
notify_event_remote_undisturbed level event_id h a =
    let nodes = (control_data h level).event_update_interested_nodes in
    ap
      (λ targets.
        act h
          (map (λ node. sent level node (update_message h notify_event_update event_id)) targets))
      (targets_undisturbed event_id nodes 255 0 a
        ∙ ap (take 5100) (ids_from_all 0 (found event_id nodes) a))

-- A round on any ascending ids that have a property tells ascending ids that have it.
round_safe :
    (P : ℕ → Type 0) (again : ℕ → List ℕ) (ids : List ℕ) (start : ℕ)
    → Ascending 0 ids
    → All P ids
    → ((next : ℕ) → Ascending next (again next) × All P (again next))
    → let rest = ids_from start ids in
      let told = send_round again (take 20 rest, ltb 20 (length rest)) in
      Ascending start told × All P told
round_safe P again ids start a p ih = split (Bool-cases (ltb 20 (length rest)))
  where
    rest : List ℕ
    rest = ids_from start ids

    sorted : Ascending start rest
    sorted = ids_from-Ascending start 0 ids a

    all : All P (take 20 rest)
    all = All-take P 20 rest (All-ids_from P start ids p)

    told : List ℕ
    told = send_round again (take 20 rest, ltb 20 (length rest))

    split :
        (ltb 20 (length rest) ≡ true) ⊎ (ltb 20 (length rest) ≡ false)
        → Ascending start told × All P told
    split (inl e) =
        let more : 20 < length rest = ltb→lt _ _ e in
        let (later, same) = ih (last_of 19 rest + 1) in
        rw e (
          Ascending-append 19 start rest (again (last_of 19 rest + 1)) sorted (omega arith) later,
          All-append P (take 20 rest) (again (last_of 19 rest + 1)) all same,
        )
    split (inr e) = rw e (Ascending-take start 20 rest sorted, all)

targets_safe :
    (P : ℕ → Type 0) (event_id : ElementFqId) (changed : ℕ → Nodes → Nodes) (nodes : Nodes)
    → ((n : ℕ) → Ascending 0 (found event_id (changed n nodes)))
    → ((n : ℕ) → All P (found event_id (changed n nodes)))
    → (rounds start : ℕ)
    → Ascending start (targets_loop event_id changed nodes rounds start)
      × All P (targets_loop event_id changed nodes rounds start)
unfolding targets_loop
targets_safe P event_id changed nodes a p zero start = (tt, tt)
targets_safe P event_id changed nodes a p (suc rounds) start =
    rw (targets_step event_id changed nodes rounds start) (
      round_safe P (targets_loop event_id changed nodes rounds)
        (found event_id (changed rounds nodes)) start (a rounds) (p rounds)
        (λ next. targets_safe P event_id changed nodes a p rounds next))

-- Whatever other threads make of the set of the event between the rounds, as long as it stays ascending: NotifyEvent sends its message to processes in ascending order, so to none twice, and to none outside a property that all processes interested in any round have.
pub notify_event_remote_lem :
    (P : ℕ → Type 0) (changed : ℕ → Nodes → Nodes) (level : QualityType) (event_id : ElementFqId)
    (h : NotifyEventHandler)
    → let nodes = (control_data h level).event_update_interested_nodes in
      ((n : ℕ) → Ascending 0 (found event_id (changed n nodes)))
      → ((n : ℕ) → All P (found event_id (changed n nodes)))
      → (targets : List ℕ) × (notify_event_remote changed level event_id h
          ≡ act h (
              map
                (λ node. sent level node (update_message h notify_event_update event_id))
                targets))
        × Ascending 0 targets
        × All P targets
unfolding notify_event_remote
notify_event_remote_lem P changed level event_id h a p =
    let nodes = (control_data h level).event_update_interested_nodes in
    let (up, same) = targets_safe P event_id changed nodes a p 255 0 in
    (targets_loop event_id changed nodes 255 0, refl, up, same)
