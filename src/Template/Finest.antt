-- ===== src/Template/Finest.antt =====
-- How fine the placeholders and the granularity of a template are.
use s3_pulse.Base.{
  ℕ, max, ◌≤◌, ◌≡◌, ◌⊎◌, refl, ap, In, Option, none, some, List, [], ◌∷◌, arith, inl, inr,
}
use s3_pulse.Template.{
  Field, year4, year2, month2, month1, day2, day1, hour2, hour1, Segment, literal, field,
  Granularity, year, month, day, hour, granularity_of, finest_with,
}

abbrev pub finest_of : Option Granularity → List Segment → Option Granularity
finest_of finest [] = finest
finest_of finest (literal text ∷ rest) = finest_of finest rest
finest_of finest (field f ∷ rest) = finest_of (some (finest_with finest f)) rest

-- The placeholders from years to hours, and the granularities.
abbrev pub fineness_of : Field → ℕ
fineness_of year4 = 0
fineness_of year2 = 0
fineness_of month2 = 1
fineness_of month1 = 1
fineness_of day2 = 2
fineness_of day1 = 2
fineness_of hour2 = 3
fineness_of hour1 = 3

abbrev pub fineness : Granularity → ℕ
fineness year = 0
fineness month = 1
fineness day = 2
fineness hour = 3

-- The granularity of the finest placeholder.
pub record IsFinest (granularity : Granularity) (segments : List Segment) : Type 0 where
  pub bounds : (f : Field) → In (field f) segments → fineness_of f ≤ fineness granularity
  pub reached : (f : Field) × In (field f) segments × (fineness_of f ≡ fineness granularity)

fineness-finest_with :
    (g : Granularity) (f : Field)
    → fineness (finest_with (some g) f) ≡ max (fineness g) (fineness_of f)
fineness-finest_with g f = ground arith

max_cases : (a b : ℕ) → (max a b ≡ a) ⊎ (max a b ≡ b)
max_cases a b = ground arith

fineness-granularity_of : (f : Field) → fineness (granularity_of f) ≡ fineness_of f
fineness-granularity_of f = ground arith

-- What `finest_of` comes to from a granularity on.
record IsReached (g : Granularity) (rest : List Segment) : Type 0 where
  final : Granularity
  found : finest_of (some g) rest ≡ some final
  above : fineness g ≤ fineness final
  bounds : (f : Field) → In (field f) rest → fineness_of f ≤ fineness final
  reached :
      (fineness g ≡ fineness final)
      ⊎ ((f : Field) × In (field f) rest × (fineness_of f ≡ fineness final))

reach-IsReached : (rest : List Segment) (g : Granularity) → IsReached g rest
reach-IsReached [] g = record {
  final = g;
  found = refl;
  above = omega arith;
  bounds = λ f m. elim m [ ];
  reached = inl refl;
}
reach-IsReached (literal text ∷ rest) g =
    let r = reach-IsReached rest g in
    record {
      final = r.final;
      found = r.found;
      above = r.above;
      bounds = λ f m. elim m [ inl e ↦ absurd (cc e) | inr n ↦ r.bounds f n ];
      reached = elim r.reached [ inl e ↦ inl e | inr (f, n, e) ↦ inr (f, inr n, e) ];
    }
reach-IsReached (field f ∷ rest) g =
    let r = reach-IsReached rest (finest_with (some g) f) in
    let most = fineness-finest_with g f in
    record {
      final = r.final;
      found = r.found;
      above = omega (arith, r.above, most);
      bounds = λ f' m. elim m [
        | inl e ↦ let same : f' ≡ f = cc e in omega (arith, r.above, most, ap fineness_of same)
        | inr n ↦ r.bounds f' n
      ];
      reached = elim r.reached [
        | inr (f', n, e) ↦ inr (f', inr n, e)
        | inl e ↦ elim (max_cases (fineness g) (fineness_of f)) [
          | inl left ↦ inl (omega (arith, e, most, left))
          | inr right ↦ inr (f, inl refl, omega (arith, e, most, right))
        ]
      ];
    }

pub granularity_cases :
    (segments : List Segment)
    → ((finest_of none segments ≡ none) × ((f : Field) → In (field f) segments → ⊥))
      ⊎ ((g : Granularity) × (finest_of none segments ≡ some g) × IsFinest g segments)
granularity_cases [] = inl (refl, λ f m. m)
granularity_cases (literal text ∷ rest) = elim (granularity_cases rest) [
  | inl (e, empty) ↦ inl (e, λ f m. elim m [ inl q ↦ absurd (cc q) | inr n ↦ empty f n ])
  | inr (g, e, h) ↦
      let (f, n, q) = h.reached in
      inr (
        g,
        e,
        record {
          bounds = λ f m. elim m [ inl q ↦ absurd (cc q) | inr n ↦ h.bounds f n ];
          reached = (f, inr n, q);
        },
      )
]
granularity_cases (field f ∷ rest) =
    let r = reach-IsReached rest (granularity_of f) in
    let start = fineness-granularity_of f in
    inr (
      r.final,
      r.found,
      record {
        bounds = λ f' m. elim m [
          | inl e ↦ let same : f' ≡ f = cc e in omega (arith, r.above, start, ap fineness_of same)
          | inr n ↦ r.bounds f' n
        ];
        reached = elim r.reached [
          | inl e ↦ (f, inl refl, omega (arith, start, e))
          | inr (f', n, e) ↦ (f', inr n, e)
        ];
      },
    )
