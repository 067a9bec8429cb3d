-- ===== src/Core/Engine/Loop.antt =====
-- The loops of `Engine.run` keep the states in order, and end.
use hermes_vps.Prelude.{
  ℕ, zero, suc, ◌+◌, ◌≤◌, ◌<◌, ◌≡◌, refl, ◌≢◌, Bool, true, false, String, some, List, [], ◌∷◌,
  eq_iff, arith, inl, inr, length, All, All-map, Bool-cases,
}
use hermes_vps.Prelude.Dict.{
  NodupKeys, Dict, lookup, insert, keys, lookup-insert, keys-insert, All-insert, elem-keys,
}
use hermes_vps.Prelude.Flow.{Ensures, Ensures-pure, Ensures-bind, Ensures-map}
use hermes_vps.Core.Interfaces.{Exception}
use hermes_vps.Core.Actions.{
  ActionStatus, pending, running, ready, succeeded, failed, skipped, blocked, cancelled,
  ActionDescriptor, ActionRuntimeState, is_open,
}
use hermes_vps.Core.Actions.Ready.{States, initial_states, is_lost, ready_from}
use hermes_vps.Core.Actions.Outcome.{Runtime}
use hermes_vps.Core.Actions.Frontier.{
  Calm, All-self, Distinct, IsReady, IsFrontier, InPart, ready_from-IsFrontier,
}
use hermes_vps.Core.Engine.{
  is_failed, is_running, is_blocked, any_status, Round, next, stop, Ended, finished, failed_fast,
  out_of_fuel, end_round, check_round, after_round, run_ready, turn, loop,
}
use hermes_vps.Core.Engine.Execute.{Engine, Eng, execute_one}
use hermes_vps.Core.Engine.Execute.Attempts.{Executed}
use hermes_vps.Core.Engine.Entries.{
  Settled, Allowed, open_count, open_count-insert, DepsSucceeded-insert, EntryOk, StatesOk,
  StatesOk-not_failed, should_fail_fast-any,
}

is_open-not_blocked : (k : ActionStatus) → is_open k ≡ true → is_blocked k ≡ false
is_open-not_blocked pending h = refl
is_open-not_blocked ready h = refl
is_open-not_blocked blocked h = cc
is_open-not_blocked _ h = refl

-- `Extra` holds of what `execute_one` leaves, and `Q` of what it raises.
module _ {W : Type 0} (rt : Runtime) (e : Engine W) (Extra : ActionStatus → Type 0)
    (Q : Exception → Type 0) (extra_pending : Extra pending)
    (step : (a : ActionDescriptor) (st : ActionRuntimeState)
      → Ensures (λ st'. Executed a st' × Extra st'.status) Q (execute_one rt e a st)) where
  abbrev Ok : Bool → States → Type 0
  Ok = StatesOk Extra e.graph.actions

  initial_entries :
      (part : Dict ActionDescriptor) (states : States)
      → All (λ s. lookup s.0 e.graph.actions ≡ some s.1) part
      → All (EntryOk Extra e.graph.actions false states) (initial_states part)
  unfolding initial_states
  initial_entries [] states h = tt
  initial_entries ((id, a) ∷ part) states h = (
    record {
      allowed = tt;
      extra = extra_pending;
      action = a;
      listed = h.0;
      untouched = λ p. refl;
      executed = λ n. absurd (n refl);
    },
    initial_entries part states h.1,
  )

  keys-initial_states : (part : Dict ActionDescriptor) → keys (initial_states part) ≡ keys part
  unfolding keys initial_states
  keys-initial_states [] = refl
  keys-initial_states ((id, a) ∷ part) = rw (keys-initial_states part)

  pub initial_states-Ok : NodupKeys e.graph.actions → Ok false (initial_states e.graph.actions)
  initial_states-Ok u = record {
    same_keys = keys-initial_states e.graph.actions;
    entries =
        initial_entries e.graph.actions (initial_states e.graph.actions)
          (All-self e.graph.actions u);
  }

  Executed-resolved :
      (a : ActionDescriptor) (st : ActionRuntimeState)
      → Executed a st
      → (is_open st.status ≡ false) × (st.status ≢ pending) × Allowed true st.status
  Executed-resolved a st x = elim x.ending [
    | inl s ↦ rw s (refl, λ p. cc, tt)
    | inr (inl (f, q)) ↦ rw f (refl, λ p. cc, refl)
    | inr (inr (k, q)) ↦ rw k (refl, λ p. cc, tt)
  ]

  -- Executing a ready action keeps the states in order.
  insert-Ok :
      (a : ActionDescriptor) (states : States) (st' : ActionRuntimeState)
      → Ok false states
      → (r : IsReady states a) → lookup a.action_id e.graph.actions ≡ some a
      → Executed a st' × Extra st'.status
      → Ok true (insert a.action_id st' states)
  insert-Ok a states st' h r known (x, extra) = record {
    same_keys =
        rw (keys-insert a.action_id st' states (rw (elem-keys a.action_id states, r.found) refl))
          h.same_keys;
    entries =
        All-insert (EntryOk Extra e.graph.actions true after) a.action_id st' states
          (All-map (EntryOk Extra e.graph.actions false states)
            (EntryOk Extra e.graph.actions true after) states (λ s k. keep s k) h.entries)
          (record {
            allowed = (Executed-resolved a st' x).2;
            extra = extra;
            action = a;
            listed = known;
            untouched = λ p. absurd ((Executed-resolved a st' x).1 p);
            executed = λ n. (
              x,
              DepsSucceeded-insert a.action_id r.state st' states a r.found r.unresolved r.deps,
            );
          });
  }
    where
      after : States
      after = insert a.action_id st' states

      weaken : (k : ActionStatus) → Allowed false k → Allowed true k
      weaken pending p = tt
      weaken succeeded p = tt
      weaken skipped p = tt
      weaken failed p = refl
      weaken ready p = p
      weaken running p = p
      weaken blocked p = p
      weaken cancelled p = p

      keep :
          (s : String × ActionRuntimeState)
          → EntryOk Extra e.graph.actions false states s
          → EntryOk Extra e.graph.actions true after s
      keep s k = record {
        allowed = weaken s.1.status k.allowed;
        extra = k.extra;
        action = k.action;
        listed = k.listed;
        untouched = k.untouched;
        executed = λ n.
            let (done, deps) = k.executed n in
            (
              done,
              DepsSucceeded-insert a.action_id r.state st' states k.action r.found r.unresolved
                  deps,
            );
      }

  abbrev ToRun : States → ActionDescriptor → Type 0
  ToRun states a = IsReady states a × (lookup a.action_id e.graph.actions ≡ some a)

  -- The other ready actions stay ready.
  ToRun-insert :
      (a b : ActionDescriptor) (states : States) (st' : ActionRuntimeState)
      → IsReady states a
      → a.action_id ≢ b.action_id
      → ToRun states b
      → ToRun (insert a.action_id st' states) b
  ToRun-insert a b states st' r n (k, known) = (
    record {
      state = k.state;
      found = rw lookup-insert (ground (arith, eq_iff a.action_id b.action_id, k.found));
      unresolved = k.unresolved;
      deps = DepsSucceeded-insert a.action_id r.state st' states b r.found r.unresolved k.deps;
    },
    known,
  )

  -- Each ready action that was executed resolves one state.
  RoundOk : ℕ → ℕ → Round → Type 0
  RoundOk ran before (next states) = Ok false states × (open_count states + ran ≤ before)
  RoundOk ran before (stop states) = Ok true states × (any_status is_failed states ≡ true)

  check_round-RoundOk :
      (ran before : ℕ) (again : States → Eng W Round) (states : States)
      → Ok true states
      → (Ok false states → Ensures (RoundOk ran before) Q (again states))
      → Ensures (RoundOk ran before) Q (check_round rt e again states)
  unfolding check_round
  check_round-RoundOk ran before again states h k =
      rw (should_fail_fast-any Extra e.graph.actions states states h.entries)
        (decide (any_status is_failed states) refl)
    where
      decide :
          (b : Bool)
          → any_status is_failed states ≡ b
          → Ensures (RoundOk ran before) Q (end_round rt e b again states)
      decide true p = Ensures-pure (stop states) (unfold RoundOk in (h, p))
      decide false p = k (StatesOk-not_failed Extra e.graph.actions states h p)

  RoundOk-suc :
      (ran before mid : ℕ) (r : Round)
      → mid + 1 ≡ before
      → RoundOk ran mid r
      → RoundOk (suc ran) before r
  unfolding RoundOk
  RoundOk-suc ran before mid (next states) q h = (h.0, omega arith)
  RoundOk-suc ran before mid (stop states) q h = h

  run_ready-RoundOk :
      (todo : List ActionDescriptor) (states : States)
      → Ok false states
      → All (ToRun states) todo
      → Distinct todo
      → Ensures (RoundOk (length todo) (open_count states)) Q (run_ready rt e todo states)
  unfolding run_ready
  run_ready-RoundOk [] states h t d =
      Ensures-pure (next states) (unfold RoundOk in (h, omega arith))
  run_ready-RoundOk (a ∷ todo) states h (r, t) (fresh, d) =
      rw (r.0.found, is_open-not_blocked r.0.state.status r.0.unresolved, run_ready)
        (Ensures-bind (λ st'. Executed a st' × Extra st'.status)
          (RoundOk (suc (length todo)) (open_count states)) (execute_one rt e a r.0.state)
          (λ st'. check_round rt e (run_ready rt e todo) (insert a.action_id st' states))
          (step a r.0.state)
          (λ st' x.
            check_round-RoundOk (suc (length todo)) (open_count states) (run_ready rt e todo)
              (insert a.action_id st' states) (insert-Ok a states st' h r.0 r.1 x)
              (λ ok'.
                Ensures-map (RoundOk (length todo) (open_count (insert a.action_id st' states)))
                  (RoundOk (suc (length todo)) (open_count states)) Q
                  (run_ready rt e todo (insert a.action_id st' states))
                  (λ q.
                    RoundOk-suc (length todo) (open_count states)
                      (open_count (insert a.action_id st' states)) q
                      (open_count-insert a.action_id r.0.state st' states r.0.found r.0.unresolved
                        (Executed-resolved a st' x.0).0))
                  (run_ready-RoundOk todo (insert a.action_id st' states) ok'
                    (others st' todo fresh t) d))))
    where
      others :
          (st' : ActionRuntimeState) (l : List ActionDescriptor)
          → All (λ b. a.action_id ≢ b.action_id) l
          → All (ToRun states) l
          → All (ToRun (insert a.action_id st' states)) l
      others st' [] f k = tt
      others st' (b ∷ l) f k = (ToRun-insert a b states st' r.0 f.0 k.0, others st' l f.1 k.1)

  abbrev pub EndOk : Ended → Type 0
  EndOk (finished states) = Ok false states × Settled e.graph.actions states
  EndOk (failed_fast states) = Ok true states × (any_status is_failed states ≡ true)
  EndOk out_of_fuel = ⊥

  none_running :
      (states l : States)
      → All (EntryOk Extra e.graph.actions false states) l
      → any_status is_running l ≡ false
  none_running states [] h = refl
  none_running states ((id, st) ∷ l) h = rw (go st.status h.0.allowed, none_running states l h.1)
    where
      go : (k : ActionStatus) → Allowed false k → is_running k ≡ false
      go running p = absurd p
      go pending p = refl
      go _ p = refl

  calm : (states l : States) → All (EntryOk Extra e.graph.actions false states) l → All Calm l
  calm states [] h = tt
  calm states ((id, st) ∷ l) h = (go st.status h.0.allowed, calm states l h.1)
    where
      go : (k : ActionStatus) → Allowed false k → is_lost k ≡ false
      go failed p = cc
      go cancelled p = absurd p
      go pending p = refl
      go _ p = refl

  module _ (distinct_keys : NodupKeys e.graph.actions)
      (keys_match : All (λ s. s.1.action_id ≡ s.0) e.graph.actions) where
    frontier :
        (states : States)
        → Ok false states
        → IsFrontier e.graph.actions states e.graph.actions (ready_from e.graph.actions states)
    frontier states h =
        ready_from-IsFrontier e.graph.actions states (calm states states h.entries) e.graph.actions
          distinct_keys keys_match (All-self e.graph.actions distinct_keys)

    turn-EndOk :
        (again : States → Eng W Ended) (states : States)
        → Ok false states
        → ((s : States) → Ok false s → open_count s < open_count states → Ensures EndOk Q (again s))
        → (r : List ActionDescriptor × States) → IsFrontier e.graph.actions states e.graph.actions r
        → Ensures EndOk Q (turn rt e again r.0 r.1)
    unfolding turn
    turn-EndOk again states h k ([], after) f =
        rw f.same (Ensures-pure (finished states) (h, inr (f.stuck refl)))
    turn-EndOk again states h k (a ∷ todo, after) f = rw f.same (
        Ensures-bind (RoundOk (suc (length todo)) (open_count states)) EndOk
          (run_ready rt e (a ∷ todo) states) (after_round rt e again)
          (run_ready-RoundOk (a ∷ todo) states h
            (All-map (InPart e.graph.actions states e.graph.actions) (ToRun states) (a ∷ todo)
              (λ b q. (q.0, q.1)) f.ready)
            f.distinct)
          ends)
      where
        ends :
            (r : Round)
            → RoundOk (suc (length todo)) (open_count states) r
            → Ensures EndOk Q (after_round rt e again r)
        ends (next s) q = unfold after_round RoundOk in k s q.0 (omega arith)
        ends (stop s) q = unfold after_round RoundOk in Ensures-pure (failed_fast s) q

    pub loop-EndOk :
        (fuel : ℕ) (states : States)
        → Ok false states
        → open_count states < fuel
        → Ensures EndOk Q (loop rt e fuel states)
    unfolding loop
    loop-EndOk zero states h l = absurd (omega arith)
    loop-EndOk (suc fuel) states h l = elim (Bool-cases (any_status is_open states)) [
      | inl more ↦
          rw (none_running states states h.entries, more, loop)
            (turn-EndOk (loop rt e fuel) states h (λ s k q. loop-EndOk fuel s k (omega arith))
              (ready_from e.graph.actions states) (frontier states h))
      | inr over ↦
          rw (none_running states states h.entries, over, loop)
            (Ensures-pure (finished states) (h, inl over))
    ]
