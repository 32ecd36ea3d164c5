-- ===== src/Download/Frame.antt =====
-- Runs of the download's monad: what a run leaves related to the state before it, and what it
-- holds when it succeeds, from its parts.
use s3_pulse.Base.{Result, ok, err}
use s3_pulse.Error.{StoreError}
use s3_pulse.Download.Monad.{Io, continue, ◌>>=◌}

-- A run from `m` ends in a state that R relates to `m`, and where it succeeds in one that `C` holds of.
module _ {M : Type 0} (R : M → M → Type 0) where
  abbrev pub Ends : {A : Type 0} → (A → M → Type 0) → M → Result StoreError A × M → Type 0
  Ends C m (ok a, m') = R m m' × C a m'
  Ends C m (err e, m') = R m m'

  pub record Does {A : Type 0} (C : A → M → Type 0) (m : M) (r : Result StoreError A × M)
      : Type 0 where
    pub ends : Ends C m r

  pub Does-weaken :
      {A : Type 0} {C D : A → M → Type 0} {m : M} (r : Result StoreError A × M)
      → ((a : A) (m' : M) → C a m' → D a m')
      → Does C m r
      → Does D m r
  Does-weaken (ok a, m') k p = record { ends = ((p.ends).0, k a m' ((p.ends).1)) }
  Does-weaken (err e, m') k p = record { ends = p.ends }

  module _ (trans : (m m' m'' : M) → R m m' → R m' m'' → R m m'') where
    pub Does-trans :
        {A : Type 0} {C : A → M → Type 0} {m : M} (m' : M) (r : Result StoreError A × M)
        → R m m'
        → Does C m' r
        → Does C m r
    Does-trans {m = m} m' (ok a, m'') p q = record {
      ends = (trans m m' m'' p ((q.ends).0), (q.ends).1);
    }
    Does-trans {m = m} m' (err e, m'') p q = record { ends = trans m m' m'' p q.ends }

    continue-Does :
        {A B : Type 0} {C : A → M → Type 0} {D : B → M → Type 0} {m : M}
        (r : Result StoreError A × M) (next : A → Io M B)
        → Does C m r
        → ((a : A) (m' : M) → C a m' → Does D m' (next a m'))
        → Does D m (continue r next)
    continue-Does (ok a, m') next p k = Does-trans m' (next a m') ((p.ends).0) (k a m' ((p.ends).1))
    continue-Does (err e, m') next p k = record { ends = p.ends }

    -- A sequence does what its parts do.
    pub >>=-Does :
        {A B : Type 0} (C : A → M → Type 0) {D : B → M → Type 0} {m : M} (run : Io M A)
        (next : A → Io M B)
        → Does C m (run m)
        → ((a : A) (m' : M) → C a m' → Does D m' (next a m'))
        → Does D m ((run >>= next) m)
    >>=-Does C {m = m} run next p k = continue-Does (run m) next p k
