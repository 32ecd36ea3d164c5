-- ===== src/Command/Names.antt =====
-- What the name of a default destination is.
use s3_pulse.Base.{
  ℕ, ◌==◌, Bool, true, false, ◌≡◌, ◌≢◌, refl, ap, sym, subst, ◌∙◌, ◌&&◌, Bool-cases, ◌⊎◌, inl, inr,
  some, [], ◌∷◌, ◌++◌, all, any, last?, ok, err, if◌then◌else◌, arith, In,
}
use s3_pulse.Base.Text.{Text, codes, is_empty, is_control}
use s3_pulse.Base.Search.{lower}
use s3_pulse.Uri.{S3Uri}
use s3_pulse.Command.{
  requires_object_uri, unsafe_name, is_forbidden, ends_badly, is_portable_file_name,
  trim_end_slashes, last_segment, default_destination, is_device, stem_of,
}
use s3_pulse.Command.Devices.{
  devices, devices_refused, upper-lower, has_dot-lower, stem_of_whole, stem_of-append,
}

-- The characters that Windows reserves.
abbrev pub reserved : Text
reserved = codes "<>:\"/\\|?*"

-- A name that is not empty, is neither of the two dot names, does not end with a space or a full stop,
-- is in no capitalisation the name of a device, alone or before a full stop, and has no control
-- character and none that is reserved.
pub record IsSafe (name : Text) : Type 0 where
  pub nonempty : name ≢ []
  pub not_here : name ≢ codes "."
  pub not_parent : name ≢ codes ".."
  pub no_space : last? name ≢ some b' '
  pub no_full_stop : last? name ≢ some b'.'
  pub no_device : ¬ In (lower name) devices
  pub no_device_stem : (stem rest : Text) → name ≡ stem ++ b'.' ∷ rest → ¬ In (lower stem) devices
  pub plain : (c : ℕ) → In c name → (is_control c ≡ false) × ¬ In c reserved

-- The name is the last segment of the key, up to slashes at its end.
pub record IsSegment (key name : Text) : Type 0 where
  pub directory : Text
  pub slashes : Text
  pub whole : key ≡ directory ++ name ++ slashes
  pub only_slashes : all (λ c. c == b'/') slashes ≡ true
  pub no_slash : any (λ c. c == b'/') name ≡ false
  pub closed : (directory ≡ []) ⊎ (last? directory ≡ some b'/')

not_any : (p : ℕ → Bool) (c : ℕ) (s : Text) → any p s ≡ false → In c s → p c ≡ false
not_any p c [] h m = elim m [ ]
not_any p c (d ∷ s) h m = ground (arith, not_any p c s)

allowed : (c : ℕ) → is_forbidden c ≡ false → (is_control c ≡ false) × ¬ In c reserved
allowed c h = ground arith

portable-IsSafe : (name : Text) → name ≢ [] → is_portable_file_name name ≡ true → IsSafe name
unfolding is_portable_file_name
portable-IsSafe name n h =
    let no : is_device (stem_of name) ≡ false = ground arith in
    let ending : ends_badly name ≡ false = ground arith in
    record {
      nonempty = n;
      not_here = λ e. cc (subst (λ t. is_portable_file_name t ≡ true) e h);
      not_parent = λ e. cc (subst (λ t. is_portable_file_name t ≡ true) e h);
      no_space = λ e. ground (arith, ending, e);
      no_full_stop = λ e. ground (arith, ending, e);
      no_device = λ m.
          let (plain, device) = devices_refused (lower name) m in
          cc (
            no,
            ap is_device
                (stem_of_whole name (sym (has_dot-lower name) ∙ plain) ∙ sym (upper-lower name)),
            device,
          );
      no_device_stem = λ stem rest e m.
          let (plain, device) = devices_refused (lower stem) m in
          cc (
            no,
            ap (λ t. is_device (stem_of t)) e,
            ap is_device (
                stem_of-append stem rest (sym (has_dot-lower stem) ∙ plain)
                ∙ sym (upper-lower stem)),
            device,
          );
      plain = λ c m. allowed c (not_any is_forbidden c name (ground arith) m);
    }

taken :
    (file name : Text)
    → (if is_empty file
        then err requires_object_uri
        else if is_portable_file_name file
        then ok file
        else err unsafe_name)
      ≡ ok name
    → (name ≡ file) × (file ≢ []) × (is_portable_file_name file ≡ true)
taken [] name h = absurd (cc h)
taken (c ∷ s) name h = ground arith

nil_of_empty : (s : Text) → is_empty s ≡ true → s ≡ []
nil_of_empty [] h = refl
nil_of_empty (c ∷ s) h = absurd (cc h)

trimmed :
    (s : Text)
    → (slashes : Text) × (s ≡ trim_end_slashes s ++ slashes) × (all (λ c. c == b'/') slashes ≡ true)
unfolding trim_end_slashes
trimmed [] = ([], refl, refl)
trimmed (c ∷ s) =
    let (slashes, u, v) = trimmed s in
    elim (Bool-cases (is_empty (trim_end_slashes s) && c == b'/')) [
      | inl t ↦ (
        c ∷ slashes,
        rw t (
            ap (◌∷◌ c)
              (u ∙ ap (λ r. r ++ slashes) (nil_of_empty (trim_end_slashes s) (ground arith)))),
        ground arith,
      )
      | inr f ↦ (slashes, rw f (ap (◌∷◌ c) u), v)
    ]

no_slash-last_segment : (s : Text) → any (λ c. c == b'/') (last_segment s) ≡ false
unfolding last_segment
no_slash-last_segment [] = refl
no_slash-last_segment (c ∷ s) = ground (arith, no_slash-last_segment s)

last?-cons : (c d : ℕ) (s : Text) → last? s ≡ some d → last? (c ∷ s) ≡ some d
last?-cons c d [] h = absurd (cc h)
last?-cons c d (x ∷ s) h = h

segment :
    (s : Text)
    → (directory : Text) × (s ≡ directory ++ last_segment s)
      × ((directory ≡ []) ⊎ (last? directory ≡ some b'/'))
unfolding last_segment
segment [] = ([], refl, inl refl)
segment (c ∷ s) =
    let (directory, w, closed) = segment s in
    elim (Bool-cases (any (λ d. d == b'/') s)) [
      | inl t ↦ (
        c ∷ directory,
        rw t (ap (◌∷◌ c) w),
        elim closed [
          | inl e ↦ absurd (
              cc (
                no_slash-last_segment s,
                subst (λ r. any (λ d. d == b'/') r ≡ true) (w ∙ ap (λ r. r ++ last_segment s) e) t,
              ))
          | inr l ↦ inr (last?-cons c b'/' directory l)
        ],
      )
      | inr f ↦ elim (Bool-cases (c == b'/')) [
        | inl k ↦ (c ∷ [], rw (f, k) refl, inr (ap some (ground arith)))
        | inr n ↦ ([], rw (f, n) refl, inl refl)
      ]
    ]

-- If `default_destination` gives a name, that name is safe (`IsSafe`), and it is the last segment of
-- the key, up to slashes at the key's end: it has no slash, and what stands before it is empty or
-- ends with one.
pub default_destination-IsSafe :
    (source : S3Uri) (name : Text)
    → default_destination source ≡ ok name
    → IsSafe name × IsSegment source.prefix name
unfolding default_destination
default_destination-IsSafe source name h =
    let trunk = trim_end_slashes source.prefix in
    let file_name = last_segment trunk in
    let (e, k, p) = taken file_name name h in
    let (slashes, u, v) = trimmed source.prefix in
    let (directory, w, closed) = segment trunk in
    (
      subst IsSafe (sym e) (portable-IsSafe file_name k p),
      subst (IsSegment source.prefix) (sym e) (record {
        directory = directory;
        slashes = slashes;
        whole = u ∙ ap (λ t. t ++ slashes) w;
        only_slashes = v;
        no_slash = no_slash-last_segment trunk;
        closed = closed;
      }),
    )
