-- ===== src/Http/Laws.antt =====
-- Reading a header field after a write, and what is sent.
use text.Mathlib.TextEquality.{eq_iff}
use nitrokit.Prelude.{
  some, none, ℕ, ◌≡◌, refl, Bool, true, false, inl, inr, some, [], ◌∷◌, ◌++◌, String, arith,
  if◌then◌else◌, ◌&&◌,
}
use nitrokit.Dict.{◌≟◌, lookup-insert, lookup-delete}
use nitrokit.Text.{Text, codes}
use nitrokit.Http.{
  write, write_header, close_past_cap, set_header, status_ok, Header, string_eq, get, set, del,
  Response, http_error, IsFresh, HasBody, IsFinal, informational,
}

pub get-set :
    (k j : String) (v : Text) (h : Header) → get j (set k v h) ≡ (if k ≟ j then v else get j h)
unfolding get set
get-set k j v h = ground (arith, lookup-insert k j (v ∷ []) h, eq_iff k j)

pub get-del : (k j : String) (h : Header) → get j (del k h) ≡ (if k ≟ j then [] else get j h)
unfolding get del
get-del k j h = ground (arith, lookup-delete k j h, eq_iff k j)

pub ruleset header_laws = (get-set, get-del)

-- The fields that http.Error leaves.
abbrev pub error_fields : Header → Header
error_fields h =
    set "X-Content-Type-Options" (codes "nosniff")
      (set "Content-Type" (codes "text/plain; charset=utf-8") (del "Content-Length" h))

-- http.Error on a fresh response sends the status with those fields, and the message.
pub http_error_lem :
    (message : Text) (status : ℕ) (w : Response)
    → IsFresh w
    → HasBody status
    → http_error message status w ≡ record {
      header = error_fields w.header;
      sent = some (record { status = status; fields = error_fields w.header });
      body = message ++ 10 ∷ [];
    }
unfolding http_error
http_error_lem message status w (fresh, empty) ok = ground arith

pub write-sent :
    (b : Text) (w : Response)
    → w.sent ≡ none
    → (write b w).sent ≡ some (record { status = status_ok; fields = w.header })
unfolding write write_header
write-sent b w h = ground arith

pub write_header-sent :
    (code : ℕ) (w : Response)
    → informational code ≡ false
    → w.sent ≡ none
    → (write_header code w).sent ≡ some (record { status = code; fields = w.header })
unfolding write_header
write_header-sent code w final h = ground arith

pub IsFinal-informational : (code : ℕ) → IsFinal code → informational code ≡ false
IsFinal-informational code (inl e, _) = rw e refl
IsFinal-informational code (inr e, _) = grind (arith, e)

-- A response whose connection is to be closed, under a condition.
abbrev pub closing : Bool → Response → Response
closing b w = record {
  header = if b then set "Connection" (codes "close") w.header else w.header;
  sent = w.sent;
  body = w.body;
}

pub close_past_cap_lem :
    (own past : Bool) (w : Response)
    → IsFresh w
    → close_past_cap own past w ≡ closing (own && past) w
unfolding close_past_cap set_header
close_past_cap_lem true true w fresh = ground (arith, fresh)
close_past_cap_lem true false w fresh = refl
close_past_cap_lem false past w fresh = refl
