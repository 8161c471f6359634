-- ===== src/FailLimit/Eviction.antt =====
-- What a full map costs: `Fail` on a new key may forget other keys, and nothing more.
use nitrokit.Prelude.{◌<◌, ◌≡◌, refl, ◌≢◌, ◌⊎◌, inl, none, some, List, [], ◌∷◌, arith, length}
use nitrokit.Dict.{
  Dict, lookup, delete, delete_if, Distinct, lookup-insert, lookup-delete, lookup-delete_if,
}
use nitrokit.Text.{Text, text_eq, text_beq_iff}
use nitrokit.Clock.{Time}
use nitrokit.FailLimit.{FailTrack, FailLimiter, max_fail_keys, evict, make_room, fail, is_over}
use nitrokit.FailLimit.Counter.{live, Strikes, strike, target, fails-fail}

lookup-evict :
    (j : Text) (visit : List Text) (m : Dict Text FailTrack)
    → (lookup j (evict visit m) ≡ lookup j m) ⊎ (lookup j (evict visit m) ≡ none)
unfolding evict
lookup-evict j [] m = inl refl
lookup-evict j (k ∷ visit) m =
    ground (arith, lookup-evict j visit (delete k m), lookup-delete k j m)

-- A map with room at the start of the loop loses nothing to it.
evict_spare :
    (visit : List Text) (m : Dict Text FailTrack) → length m < max_fail_keys → evict visit m ≡ m
unfolding evict
evict_spare [] m h = refl
evict_spare (k ∷ visit) m h = ground arith

module _ (order : Dict Text FailTrack → List Text) where
  lookup-make_room :
      (j : Text) (now : Time) (l : FailLimiter)
      → Distinct l.fails
      → (lookup j (make_room order now l) ≡ lookup j l.fails)
        ⊎ (lookup j (make_room order now l) ≡ none)
  unfolding make_room
  lookup-make_room j now l h =
      let swept = delete_if (is_over l.window now) l.fails in
      ground (
        arith,
        lookup-evict j (order swept) swept,
        lookup-delete_if (is_over l.window now) j l.fails h,
      )

  -- If dropping the expired entries makes room, no live one is lost.
  live-make_room :
      (j : Text) (now : Time) (l : FailLimiter)
      → Distinct l.fails
      → length (delete_if (is_over l.window now) l.fails) < max_fail_keys
      → live l.window now (lookup j (make_room order now l)) ≡ live l.window now (lookup j l.fails)
  unfolding make_room
  live-make_room j now l h room =
      let swept = delete_if (is_over l.window now) l.fails in
      ground (
        arith,
        evict_spare (order swept) swept room,
        lookup-delete_if (is_over l.window now) j l.fails h,
      )

  lookup-target :
      (j : Text) (now : Time) (l : FailLimiter) (s : Strikes)
      → Distinct l.fails
      → (lookup j (target order now l s) ≡ lookup j l.fails)
        ⊎ (lookup j (target order now l s) ≡ none)
  lookup-target j now l none h = lookup-make_room j now l h
  lookup-target j now l (some t) h = inl refl

  live-target :
      (j : Text) (now : Time) (l : FailLimiter) (s : Strikes)
      → Distinct l.fails
      → length (delete_if (is_over l.window now) l.fails) < max_fail_keys
      → live l.window now (lookup j (target order now l s)) ≡ live l.window now (lookup j l.fails)
  live-target j now l none h room = live-make_room j now l h room
  live-target j now l (some t) h room = refl

  -- A failure of one key leaves the entry of any other key as it is, or evicts it: no count but
  -- that of the failing key goes up, and none goes down but to nothing.
  pub lookup-fail_ne :
      (j k : Text) (now : Time) (l : FailLimiter)
      → Distinct l.fails
      → k ≢ j
      → (lookup j (fail order k now l).fails ≡ lookup j l.fails)
        ⊎ (lookup j (fail order k now l).fails ≡ none)
  lookup-fail_ne j k now l h ne =
      let s = live l.window now (lookup k l.fails) in
      ground (
        arith,
        fails-fail order k now l,
        lookup-insert k j (strike now s) (target order now l s),
        lookup-target j now l s h,
        text_beq_iff k j,
      )

  -- While the entries whose window is still open number fewer than 4096, a failure of one key
  -- loses no open window of another, however full the map is.
  pub live-fail_ne :
      (j k : Text) (now : Time) (l : FailLimiter)
      → Distinct l.fails
      → k ≢ j
      → length (delete_if (is_over l.window now) l.fails) < max_fail_keys
      → live l.window now (lookup j (fail order k now l).fails)
        ≡ live l.window now (lookup j l.fails)
  live-fail_ne j k now l h ne room =
      let s = live l.window now (lookup k l.fails) in
      ground (
        arith,
        fails-fail order k now l,
        lookup-insert k j (strike now s) (target order now l s),
        live-target j now l s h room,
        text_beq_iff k j,
      )
