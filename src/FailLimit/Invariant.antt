-- ===== src/FailLimit/Invariant.antt =====
-- What every method of the failure limiter preserves, the bound on its map above all.
use nitrokit.Prelude.{
  ◌≤◌, ◌<◌, ◌≡◌, some, List, [], ◌∷◌, arith, length, ltb_ℤ, inc_int64, ℤ, pos, ◌≤ℤ◌, ◌<ℤ◌,
  Option-cases, Bool-cases, inl, inr, ◌⊎◌,
}
use nitrokit.Dict.{
  Dict, lookup, insert, delete, delete_if, Distinct, length-insert, length-delete, insert-Distinct,
  delete-Distinct, delete_if-Distinct, nil_of_lookup, lookup-delete, length-insert_of_found,
}
use nitrokit.Text.{Text, text_eq, text_beq_iff}
use nitrokit.Clock.{Time, Duration, sub}
use nitrokit.FailLimit.{
  FailTrack, FailLimiter, max_fail_keys, new_fail_limiter, blocked, evict, make_room, start_window,
  fail, pass, Event, checked, failed, passed, step, run, is_over,
}

-- The text is among those listed.
abbrev pub Listed : Text → List Text → Type 0
Listed k [] = ⊥
Listed k (j ∷ js) = (j ≡ k) ⊎ Listed k js

-- A Go `range` yields every key that the map holds.
pub record IsRange (order : Dict Text FailTrack → List Text) : Type 0 where
  pub yields :
      (m : Dict Text FailTrack) (k : Text) (t : FailTrack)
      → lookup k m ≡ some t
      → Listed k (order m)

pub record IsValid (l : FailLimiter) : Type 0 where
  pub limit_pos : pos 1 ≤ℤ l.limit
  pub window_pos : pos 0 <ℤ l.window
  pub distinct : Distinct l.fails
  pub bounded : length l.fails ≤ max_fail_keys

-- What is left to visit after a key has been deleted.
survivor :
    (k j : Text) (m : Dict Text FailTrack) (visit : List Text) (t : FailTrack)
    → (lookup j m ≡ some t → (k ≡ j) ⊎ Listed j visit)
    → lookup j (delete k m) ≡ some t
    → Listed j visit
survivor k j m visit t h e = ground (arith, lookup-delete k j m, text_beq_iff k j)

-- Either the eviction stopped at its test, or it has deleted all that it was to visit.
evict_lem :
    (visit : List Text) (m : Dict Text FailTrack)
    → ((k : Text) (t : FailTrack) → lookup k m ≡ some t → Listed k visit)
    → length (evict visit m) < max_fail_keys
unfolding evict
evict_lem [] m h =
    let empty =
      nil_of_lookup m
        (λ k. elim (Option-cases (lookup k m)) [ inl e ↦ e | inr (t, e) ↦ absurd (h k t e) ]) in
    omega arith
evict_lem (k ∷ visit) m h =
    ground (arith, evict_lem visit (delete k m) (λ j t e. survivor k j m visit t (h j t) e))

evict-Distinct :
    (visit : List Text) (m : Dict Text FailTrack) → Distinct m → Distinct (evict visit m)
unfolding evict
evict-Distinct [] m h = h
evict-Distinct (k ∷ visit) m h =
    ground (arith, evict-Distinct visit (delete k m) (delete-Distinct k m h))

module _ {order : Dict Text FailTrack → List Text} (o : IsRange order) where
  -- Room for one more key.
  pub length-make_room :
      (now : Time) (l : FailLimiter) → length (make_room order now l) < max_fail_keys
  unfolding make_room
  length-make_room now l =
      let swept = delete_if (is_over l.window now) l.fails in
      ground (arith, evict_lem (order swept) swept (o.yields swept))

  make_room-Distinct :
      (now : Time) (l : FailLimiter) → Distinct l.fails → Distinct (make_room order now l)
  unfolding make_room
  make_room-Distinct now l h =
      let swept = delete_if (is_over l.window now) l.fails in
      ground (
        arith,
        evict-Distinct (order swept) swept (delete_if-Distinct (is_over l.window now) l.fails h),
      )

  start_window-IsValid :
      (key : Text) (now : Time) {l : FailLimiter}
      → IsValid l
      → IsValid (start_window order key now l)
  unfolding start_window
  start_window-IsValid key now {l} v = record {
    limit_pos = v.limit_pos;
    window_pos = v.window_pos;
    distinct = insert-Distinct key _ _ (make_room-Distinct now l v.distinct);
    bounded = omega (
      arith,
      length-make_room now l,
      length-insert key (record { count = pos 1; window_start = now }) (make_room order now l),
    );
  }

  count-IsValid :
      (key : Text) (t w : FailTrack) {l : FailLimiter}
      → lookup key l.fails ≡ some t
      → IsValid l
      → IsValid (record l { fails = insert key w l.fails })
  count-IsValid key t w {l} h v = record {
    limit_pos = v.limit_pos;
    window_pos = v.window_pos;
    distinct = insert-Distinct key w l.fails v.distinct;
    bounded = omega (arith, length-insert_of_found key w t l.fails h, v.bounded);
  }

  fail_cases :
      (key : Text) (now : Time) (l : FailLimiter)
      → (fail order key now l ≡ start_window order key now l)
        ⊎ ((t w : FailTrack) × (lookup key l.fails ≡ some t)
            × (fail order key now l ≡ record l { fails = insert key w l.fails }))
  unfolding fail
  fail_cases key now l = elim (Option-cases (lookup key l.fails)) [
    | inl e ↦ inl (ground arith)
    | inr (t, e) ↦ elim (Bool-cases (ltb_ℤ (sub now t.window_start) l.window)) [
      | inl inside ↦ inr (t, record t { count = inc_int64 t.count }, e, ground arith)
      | inr over ↦ inl (ground arith)
    ]
  ]

  pub fail-IsValid :
      (key : Text) (now : Time) {l : FailLimiter} → IsValid l → IsValid (fail order key now l)
  fail-IsValid key now {l} v = elim (fail_cases key now l) [
    | inl e ↦ rw e (start_window-IsValid key now v)
    | inr (t, w, h, e) ↦ rw e (count-IsValid key t w h v)
  ]

delete-IsValid :
    (key : Text) {l : FailLimiter} → IsValid l → IsValid (record l { fails = delete key l.fails })
delete-IsValid key {l} v = record {
  limit_pos = v.limit_pos;
  window_pos = v.window_pos;
  distinct = delete-Distinct key l.fails v.distinct;
  bounded = omega (arith, length-delete key l.fails, v.bounded);
}

pub blocked-IsValid :
    (key : Text) (now : Time) {l : FailLimiter} → IsValid l → IsValid (blocked key now l).1
unfolding blocked
blocked-IsValid key now {l} v = elim (Option-cases (lookup key l.fails)) [
  | inl e ↦ rw (e, blocked) v
  | inr (t, e) ↦ elim (Bool-cases (is_over l.window now t)) [
    | inl over ↦ rw (e, blocked) (rw over (delete-IsValid key v))
    | inr inside ↦ rw (e, blocked) (rw inside v)
  ]
]

pub pass-IsValid : (key : Text) {l : FailLimiter} → IsValid l → IsValid (pass key l)
unfolding pass
pass-IsValid key v = delete-IsValid key v

pub new_fail_limiter-IsValid :
    (limit : ℤ) (window : Duration) {l : FailLimiter}
    → new_fail_limiter limit window ≡ some l
    → IsValid l
unfolding new_fail_limiter
new_fail_limiter-IsValid limit window h = ground arith

module _ {order : Dict Text FailTrack → List Text} (o : IsRange order) where
  step-IsValid : (e : Event) {l : FailLimiter} → IsValid l → IsValid (step order l e)
  unfolding step
  step-IsValid (checked k now) v = blocked-IsValid k now v
  step-IsValid (failed k now) v = fail-IsValid o k now v
  step-IsValid (passed k) v = pass-IsValid k v

  run_keeps : (es : List Event) {l : FailLimiter} → IsValid l → IsValid (run order l es)
  unfolding run
  run_keeps [] v = v
  run_keeps (e ∷ es) v = run_keeps es (step-IsValid e v)

  -- Whatever calls a new limiter receives, in any order and with any clock readings, and in
  -- whatever order its map is ranged over, it stays valid: the configuration keeps its bounds, no
  -- key is tracked twice, and at most 4096 keys are tracked.
  pub run-IsValid :
      (limit : ℤ) (window : Duration) (es : List Event) {l : FailLimiter}
      → new_fail_limiter limit window ≡ some l
      → IsValid (run order l es)
  run-IsValid limit window es h = run_keeps es (new_fail_limiter-IsValid limit window h)
