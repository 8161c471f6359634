-- ===== src/SigV4/Gathering.antt =====
-- The loop of signV4 over the header, at headers whose names are distinct in lower case.
use mathlib.Core.List.{Perm, filter_map, foldr}
use mathlib.Core.List.Perm
use nitrokit.Prelude.{
  ◌≡◌, refl, subst, sym, ap, ◌∙◌, arith, Bool, true, false, ◌||◌, Option, none, some, List, [], ◌∷◌,
  ◌++◌, append_assoc, append-nil, map, if◌then◌else◌, Bool-cases, inl, inr, ◌⊎◌,
}
use nitrokit.Dict.{Dict, lookup, insert, lookup-insert, insert-Distinct, Distinct}
use nitrokit.Dict.Reordering.{insert_of_absent}
use nitrokit.Text.{Text, text_beq_iff, text_eq, to_lower, trim_space}
use nitrokit.SigV4.Sign.{Header, is_signed, collect, collect_skip}

abbrev pub lowered : Header → Dict Text (List Text)
lowered h = map (λ e. (to_lower e.0, e.1)) h

-- The entry that `collect` makes of a header field.
abbrev signed_field : (Text × List Text) → Option (Text × Text)
signed_field (k, []) = none
signed_field (k, v ∷ vs) = if is_signed k then some (k, trim_space v) else none

-- A field that is signed and has no value.
abbrev is_void : (Text × List Text) → Bool
is_void (k, []) = is_signed k
is_void (k, v ∷ vs) = false

abbrev or_void : (Text × List Text) → Bool → Bool
or_void e b = is_void e || b

abbrev has_void : Dict Text (List Text) → Bool
has_void h = foldr or_void false h

-- The names of `h` that are signed are not in `headers`.
abbrev pub IsApart : Dict Text (List Text) → Dict Text Text → Type 0
IsApart h headers =
    (k : Text) (vals : List Text)
    → lookup k h ≡ some vals
    → is_signed k ≡ true
    → lookup k headers ≡ none

-- What `collect` makes of a header whose names are distinct, in lower case.
abbrev pub gathered : Dict Text (List Text) → Dict Text Text → Option (Dict Text Text)
gathered h headers = if has_void h then none else some (headers ++ filter_map signed_field h)

gathered_skip :
    (k : Text) (vals : List Text) (h : Dict Text (List Text)) (headers : Dict Text Text)
    → is_signed k ≡ false
    → gathered ((k, vals) ∷ h) headers ≡ gathered h headers
unfolding filter_map
gathered_skip k [] h headers e = ground (arith, e)
gathered_skip k (v ∷ vs) h headers e = rw e refl

gathered_take :
    (k v : Text) (vs : List Text) (h : Dict Text (List Text)) (headers : Dict Text Text)
    → is_signed k ≡ true
    → gathered ((k, v ∷ vs) ∷ h) headers ≡ gathered h (headers ++ (k, trim_space v) ∷ [])
unfolding filter_map
gathered_take k v vs h headers e = rw e (
    ap (λ t. if has_void h then none else some t)
      (sym (append_assoc headers ((k, trim_space v) ∷ []) (filter_map signed_field h))))

collect_take :
    (name v : Text) (vs : List Text) (h : Header) (headers : Dict Text Text)
    → is_signed (to_lower name) ≡ true
    → collect ((name, v ∷ vs) ∷ h) headers
      ≡ collect h (insert (to_lower name) (trim_space v) headers)
unfolding collect
collect_take name v vs h headers e = rw (e, collect) refl

IsApart-tail :
    (k : Text) (vals : List Text) (h : Dict Text (List Text)) (headers : Dict Text Text)
    → lookup k h ≡ none
    → IsApart ((k, vals) ∷ h) headers
    → IsApart h headers
unfolding lookup
IsApart-tail k vals h headers absent apart j ws e signed =
    apart j ws (ground (arith, e, absent, text_beq_iff k j)) signed

IsApart-insert :
    (k w : Text) (vals : List Text) (h : Dict Text (List Text)) (headers : Dict Text Text)
    → lookup k h ≡ none
    → IsApart ((k, vals) ∷ h) headers
    → IsApart h (insert k w headers)
IsApart-insert k w vals h headers absent apart j ws e signed = ground (
  arith,
  e,
  absent,
  text_beq_iff k j,
  lookup-insert k j w headers,
  IsApart-tail k vals h headers absent apart j ws e signed,
)

collect_unsigned :
    (name : Text) (vals : List Text) (h : Header) (headers : Dict Text Text)
    → is_signed (to_lower name) ≡ false
    → collect h headers ≡ gathered (lowered h) headers
    → collect ((name, vals) ∷ h) headers ≡ gathered (lowered ((name, vals) ∷ h)) headers
collect_unsigned name vals h headers e same =
    collect_skip name vals h headers e
    ∙ same
    ∙ sym (gathered_skip (to_lower name) vals (lowered h) headers e)

lookup_head :
    (k : Text) (vals : List Text) (h : Dict Text (List Text)) → lookup k ((k, vals) ∷ h) ≡ some vals
unfolding lookup
lookup_head k vals h = ground (arith, text_beq_iff k k)

pub collect_lem :
    (h : Header) (headers : Dict Text Text)
    → Distinct (lowered h)
    → IsApart (lowered h) headers
    → collect h headers ≡ gathered (lowered h) headers
unfolding collect filter_map
collect_lem [] headers d apart = ap some (sym (append-nil headers))
collect_lem ((name, []) ∷ h) headers (absent, d) apart =
    elim (Bool-cases (is_signed (to_lower name))) [
      | inr e ↦ collect_unsigned name [] h headers e (
          collect_lem h headers d
            (IsApart-tail (to_lower name) [] (lowered h) headers absent apart))
      | inl e ↦ rw (e, collect) refl
    ]
collect_lem ((name, v ∷ vs) ∷ h) headers (absent, d) apart =
    elim (Bool-cases (is_signed (to_lower name))) [
      | inr e ↦ collect_unsigned name (v ∷ vs) h headers e (
          collect_lem h headers d
            (IsApart-tail (to_lower name) (v ∷ vs) (lowered h) headers absent apart))
      | inl e ↦
          let k = to_lower name in
          let w = trim_space v in
          let fresh = apart k (v ∷ vs) (lookup_head k (v ∷ vs) (lowered h)) e in
          collect_take name v vs h headers e
          ∙ collect_lem h (insert k w headers) d
              (IsApart-insert k w (v ∷ vs) (lowered h) headers absent apart)
          ∙ ap (gathered (lowered h)) (insert_of_absent k w headers fresh)
          ∙ sym (gathered_take k v vs (lowered h) headers e)
    ]

abbrev pub AllDistinct : Option (Dict Text Text) → Type 0
AllDistinct none = Unit
AllDistinct (some headers) = Distinct headers

pub collect-AllDistinct :
    (h : Header) (headers : Dict Text Text) → Distinct headers → AllDistinct (collect h headers)
unfolding collect
collect-AllDistinct [] headers d = d
collect-AllDistinct ((name, []) ∷ h) headers d = elim (Bool-cases (is_signed (to_lower name))) [
  | inr e ↦ rw (e, collect) (collect-AllDistinct h headers d)
  | inl e ↦ rw (e, collect) tt
]
collect-AllDistinct ((name, v ∷ vs) ∷ h) headers d = elim (Bool-cases (is_signed (to_lower name))) [
  | inr e ↦ rw (e, collect) (collect-AllDistinct h headers d)
  | inl e ↦
      rw (e, collect)
        (collect-AllDistinct h _ (insert-Distinct (to_lower name) (trim_space v) headers d))
]

-- Neither, or the same entries in another order.
abbrev pub Reordered : Option (Dict Text Text) → Option (Dict Text Text) → Type 0
Reordered a b =
    ((a ≡ none) × (b ≡ none))
    ⊎ ((hs hs' : Dict Text Text) × (a ≡ some hs) × (b ≡ some hs') × Perm hs hs' × Distinct hs)

or_void_comm :
    (a b : Text × List Text) (x : Bool) → or_void a (or_void b x) ≡ or_void b (or_void a x)
or_void_comm a b x = ground arith

Bool_set : IsSet Bool
Bool_set = hlevel

has_void-Perm : {h h' : Dict Text (List Text)} → Perm h h' → has_void h ≡ has_void h'
has_void-Perm p = Perm.foldr-eq Bool_set or_void or_void_comm p false

pub gathered-Perm :
    {h h' : Dict Text (List Text)} (headers : Dict Text Text)
    → Perm h h'
    → AllDistinct (gathered h headers)
    → Reordered (gathered h headers) (gathered h' headers)
gathered-Perm {h} {h'} headers p d = elim (Bool-cases (has_void h)) [
  | inl e ↦ inl (rw e refl, rw (sym (has_void-Perm p) ∙ e) refl)
  | inr e ↦
      let f = filter_map signed_field h in
      let f' = filter_map signed_field h' in
      let is_some = ap (λ b. if b then none else some (headers ++ f)) e in
      inr (
        headers ++ f,
        headers ++ f',
        is_some,
        ap (λ b. if b then none else some (headers ++ f')) (sym (has_void-Perm p) ∙ e),
        Perm.append_left headers (Perm.filter_map signed_field p),
        subst AllDistinct is_some d,
      )
]
