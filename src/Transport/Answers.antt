-- ===== src/Transport/Answers.antt =====
-- The responses in a run of the server, against those that its messages demand.
use s3_pulse.Base.{ℕ, ◌+◌, ◌≡◌, refl, ap, ◌∙◌, List, [], ◌∷◌, ◌++◌, map, Result, ok, err, arith}
use s3_pulse.Transport.Serve.{RequestId, null, finished, replied, Task, Server, Codec, new}
use s3_pulse.Transport.Steps.{
  Step, line, long_line, hang_up, done, stopped, answer, quiet, leave, after_grace, response_of,
}
use s3_pulse.Transport.Counts.{
  answered, count, owed_id, owed, open_of, pending, answers, answers-respond, answers-receive,
  pending-append, count-append, count-output,
}

module _ {V : Type 0} where
  -- The identifiers under which a step demands a response: that of the message that it reads.
  abbrev pub owed_by : (codec : Codec V) (s s' : Server V) → Step codec s s' → List RequestId
  owed_by codec _ _ (line s bytes) = owed codec bytes
  owed_by codec _ _ (long_line s) = null ∷ []
  owed_by codec _ _ (hang_up s) = []
  owed_by codec _ _ (done s before task after result e p) = []
  owed_by codec _ _ (stopped s before task after result e p m) = []
  owed_by codec _ _ (answer s before task after id result e p n) = []
  owed_by codec _ _ (quiet s before task after result e p n) = []
  owed_by codec _ _ (leave s before task after id e p n) = []

  -- The tasks around one that changes.
  pending_around :
      (who : RequestId) (tasks before : List (Task V)) (task : Task V) (after : List (Task V))
      → tasks ≡ before ++ task ∷ after
      → count who (pending tasks)
        ≡ count who (pending before)
          + (count who (open_of task.phase task.id) + count who (pending after))
  pending_around who tasks before task after e =
      ap (λ ts. count who (pending ts)) e
      ∙ pending-append who before (task ∷ after)
      ∙ ap (λ n. count who (pending before) + n)
          (count-append who (open_of task.phase task.id) (pending after))

  answered-response_of :
      (id : RequestId) (result : Result _ V) → answered (response_of id result) ≡ id
  answered-response_of id (ok value) = refl
  answered-response_of id (err e) = refl

  answers-Step :
      (who : RequestId) (codec : Codec V) (s s' : Server V) (step : Step codec s s')
      → answers who s' ≡ answers who s + count who (owed_by codec s s' step)
  answers-Step who codec _ _ (line s bytes) = answers-receive who codec s bytes
  answers-Step who codec _ _ (long_line s) = answers-respond who s _
  answers-Step who codec _ _ (hang_up s) = omega arith
  answers-Step who codec _ _ (done s before task after result e p) = omega (
    arith,
    pending_around who s.tasks before task after e,
    pending_around who _ before (record task { phase = finished result }) after refl,
    ap (λ h. count who (open_of h task.id)) p,
  )
  answers-Step who codec _ _ (stopped s before task after result e p m) = omega (
    arith,
    pending_around who s.tasks before task after e,
    pending_around who _ before (record task { phase = finished (after_grace result) }) after refl,
    ap (λ h. count who (open_of h task.id)) p,
  )
  answers-Step who codec _ _ (answer s before task after id result e p n) = omega (
    arith,
    pending_around who s.tasks before task after e,
    pending_around who _ before (record task { phase = replied }) after refl,
    ap (λ h. count who (open_of h task.id)) p,
    ap (λ o. count who (owed_id o)) n,
    ap (λ i. count who (i ∷ [])) (answered-response_of id result),
    count-output who s.output (response_of id result),
  )
  answers-Step who codec _ _ (quiet s before task after result e p n) = omega (
    arith,
    pending_around who s.tasks before task after e,
    pending-append who before after,
    ap (λ h. count who (open_of h task.id)) p,
    ap (λ o. count who (owed_id o)) n,
  )
  answers-Step who codec _ _ (leave s before task after id e p n) = omega (
    arith,
    pending_around who s.tasks before task after e,
    pending-append who before after,
    ap (λ h. count who (open_of h task.id)) p,
  )

  -- A run from a new server, with the identifiers under which its messages demand responses, the
  -- last one first.
  pub data IsRun (codec : Codec V) (limit : ℕ) : Server V → List RequestId → Type 0 where
    begin : IsRun codec limit (new limit) []
    then_step :
        (s s' : Server V) (demanded : List RequestId) (step : Step codec s s')
        → IsRun codec limit s demanded
        → IsRun codec limit s' (owed_by codec s s' step ++ demanded)

  -- However requests, results and cancellations interleave, the responses under an identifier that
  -- are written and those that tasks have still to write are as many as the messages so far demand
  -- under it: one under its identifier for each request that has one and is not `$/cancelRequest`,
  -- whether it is run, refused or cancelled; one for each request of another version or without a
  -- method, under its identifier or null; one under null for each line that is no request; and none
  -- for a notification or for `$/cancelRequest`.
  pub answers-IsRun :
      (who : RequestId) (codec : Codec V) (limit : ℕ) (demanded : List RequestId) (s : Server V)
      → IsRun codec limit s demanded
      → count who (map answered s.output) + count who (pending s.tasks) ≡ count who demanded
  answers-IsRun who codec limit _ _ begin = refl
  answers-IsRun who codec limit _ _ (then_step s s' demanded step run) = omega (
    arith,
    answers-IsRun who codec limit demanded s run,
    answers-Step who codec s s' step,
    count-append who (owed_by codec s s' step) demanded,
  )
