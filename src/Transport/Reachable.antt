-- ===== src/Transport/Reachable.antt =====
-- Every step of the server keeps it consistent, and so is every server that steps lead to.
use s3_pulse.Base.{
  ℕ, suc, ◌+◌, ◌≤◌, ◌≡◌, refl, sym, ap, ◌∙◌, subst, none, some, List, ◌∷◌, ◌++◌, max, In, arith,
}
use s3_pulse.Base.Distinct.{IsDistinct, IsDistinct-without}
use s3_pulse.Transport.Serve.{
  RequestId, Response, Phase, finished, replied, Task, Server, Codec, new,
}
use s3_pulse.Transport.Steps.{
  Step, line, long_line, hang_up, done, stopped, answer, quiet, leave, end_silent, end_known,
}
use s3_pulse.Transport.Identity.{id_of, ids, without-known, other_id, wider, apart}
use s3_pulse.Transport.Consistent.{
  busy_of, busy, IsConsistent, ids-append, busy-append, respond-IsConsistent, receive-IsConsistent,
}

module _ {V : Type 0} where
  ids_middle :
      (before : List (Task V)) (task : Task V) (after : List (Task V)) (phase : Phase V)
      → ids (before ++ record task { phase = phase } ∷ after) ≡ ids (before ++ task ∷ after)
  ids_middle before task after phase =
      ids-append before (record task { phase = phase } ∷ after)
      ∙ sym (ids-append before (task ∷ after))

  -- A task that changes its phase, with the permits that go with it.
  phase-IsConsistent :
      (limit permits : ℕ) (s : Server V) (output : List (Response V)) (before : List (Task V))
      (task : Task V) (after : List (Task V)) (phase : Phase V)
      → s.tasks ≡ before ++ task ∷ after
      → permits + busy_of phase ≡ s.permits + busy_of task.phase
      → IsConsistent limit s
      → IsConsistent limit (record s {
        permits = permits;
        output = output;
        tasks = before ++ record task { phase = phase } ∷ after;
      })
  phase-IsConsistent limit permits s output before task after phase e b c =
      let same : ids (before ++ record task { phase = phase } ∷ after) ≡ ids s.tasks =
        ids_middle before task after phase ∙ ap ids (sym e) in
      let count : busy s.tasks ≡ busy before + (busy_of task.phase + busy after) =
        ap busy e ∙ busy-append before (task ∷ after) in
      record {
        bounded = omega (
          arith,
          c.bounded,
          b,
          count,
          busy-append before (record task { phase = phase } ∷ after),
        );
        distinct = rw same c.distinct;
        same = λ j. rw same (c.same j);
      }

  end_silent-IsConsistent :
      (limit : ℕ) (s : Server V) (before : List (Task V)) (task : Task V) (after : List (Task V))
      → s.tasks ≡ before ++ task ∷ after
      → busy_of task.phase ≡ 0
      → task.id ≡ none
      → IsConsistent limit s
      → IsConsistent limit (end_silent s before after)
  end_silent-IsConsistent limit s before task after e b n c =
      let same : ids (before ++ after) ≡ ids s.tasks =
        ids-append before after
        ∙ ap (λ o. ids before ++ id_of o (ids after)) (sym n)
        ∙ sym (ids-append before (task ∷ after))
        ∙ ap ids (sym e) in
      let count : busy s.tasks ≡ busy before + (busy_of task.phase + busy after) =
        ap busy e ∙ busy-append before (task ∷ after) in
      record {
        bounded = omega (arith, c.bounded, b, count, busy-append before after);
        distinct = rw same c.distinct;
        same = λ j. rw same (c.same j);
      }

  end_known-IsConsistent :
      (limit : ℕ) (s : Server V) (before : List (Task V)) (task : Task V) (after : List (Task V))
      (id : RequestId)
      → s.tasks ≡ before ++ task ∷ after
      → busy_of task.phase ≡ 0
      → task.id ≡ some id
      → IsConsistent limit s
      → IsConsistent limit (end_known s before after id)
  end_known-IsConsistent limit s before task after id e b n c =
      let all : ids s.tasks ≡ ids before ++ id ∷ ids after =
        ap ids e
        ∙ ids-append before (task ∷ after)
        ∙ ap (λ o. ids before ++ id_of o (ids after)) n in
      let count : busy s.tasks ≡ busy before + (busy_of task.phase + busy after) =
        ap busy e ∙ busy-append before (task ∷ after) in
      let (gone, others) =
        IsDistinct-without (ids before) id (ids after) (subst IsDistinct all c.distinct) in
      let left = ids-append before after in
      record {
        bounded = omega (arith, c.bounded, b, count, busy-append before after);
        distinct = rw left others;
        same = λ j. rw left (
          (λ m.
              let (k, f) = (without-known id j s.in_flight).0 m in
              other_id id j (ids before) (ids after) f (subst (In j) all ((c.same j).0 k))),
          λ m. (without-known id j s.in_flight).1 (
            (c.same j).1 (subst (In j) (sym all) (wider j id (ids before) (ids after) m)),
            apart id j (ids before ++ ids after) gone m,
          ),
        );
      }

  -- Every step of the loop and of the tasks keeps the server consistent: the running handlers and the
  -- free permits are as many as the limit, the identifiers of the tasks are distinct, and they are the
  -- ones in flight.
  pub Step-IsConsistent :
      (limit : ℕ) (codec : Codec V) (s s' : Server V)
      → Step codec s s'
      → IsConsistent limit s
      → IsConsistent limit s'
  Step-IsConsistent limit codec _ _ (line s bytes) c = receive-IsConsistent limit codec s bytes c
  Step-IsConsistent limit codec _ _ (long_line s) c = respond-IsConsistent limit s _ c
  Step-IsConsistent limit codec _ _ (hang_up s) c = record {
    bounded = c.bounded;
    distinct = c.distinct;
    same = c.same;
  }
  Step-IsConsistent limit codec _ _ (done s before task after result e p) c =
      phase-IsConsistent limit (suc s.permits) s s.output before task after (finished result) e
        (rw p (omega arith)) c
  Step-IsConsistent limit codec _ _ (stopped s before task after result e p m) c =
      phase-IsConsistent limit (suc s.permits) s s.output before task after _ e (rw p (omega arith))
        c
  Step-IsConsistent limit codec _ _ (answer s before task after id result e p n) c =
      phase-IsConsistent limit s.permits s _ before task after replied e (rw p refl) c
  Step-IsConsistent limit codec _ _ (quiet s before task after result e p n) c =
      end_silent-IsConsistent limit s before task after e (rw p refl) n c
  Step-IsConsistent limit codec _ _ (leave s before task after id e p n) c =
      end_known-IsConsistent limit s before task after id e (rw p refl) n c

  -- The servers that steps lead to from a new one.
  pub data IsReachable (codec : Codec V) (max_concurrent_requests : ℕ) : Server V → Type 0 where
    start : IsReachable codec max_concurrent_requests (new max_concurrent_requests)
    next :
        (s s' : Server V)
        → IsReachable codec max_concurrent_requests s
        → Step codec s s'
        → IsReachable codec max_concurrent_requests s'

  IsReachable-IsConsistent :
      (codec : Codec V) (n : ℕ) (s : Server V) → IsReachable codec n s → IsConsistent (max n 1) s
  IsReachable-IsConsistent codec n _ start = record {
    bounded = omega arith;
    distinct = tt;
    same = λ j. (λ m. m, λ m. m);
  }
  IsReachable-IsConsistent codec n _ (next s s' r step) =
      Step-IsConsistent (max n 1) codec s s' step (IsReachable-IsConsistent codec n s r)

  -- However requests, results and cancellations interleave, at most as many handlers run at once as
  -- the limit says, or one if it is zero, and no two tasks have the same identifier.
  pub busy-IsReachable :
      (codec : Codec V) (max_concurrent_requests : ℕ) (s : Server V)
      → IsReachable codec max_concurrent_requests s
      → (busy s.tasks ≤ max max_concurrent_requests 1) × IsDistinct (ids s.tasks)
  busy-IsReachable codec n s r =
      let c = IsReachable-IsConsistent codec n s r in (omega (arith, c.bounded), c.distinct)
