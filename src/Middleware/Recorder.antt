-- ===== src/Middleware/Recorder.antt =====
-- `AccessLog`: the recorder of the status. A handler is the list of the calls that it makes on its
-- ResponseWriter.
use nitrokit.Prelude.{
  ap, sym, ◌∙◌, ℕ, ◌+◌, ◌-◌, ◌%◌, ◌≡◌, refl, true, none, some, List, [], ◌∷◌, ◌++◌, if◌then◌else◌,
  arith, String, ltb, pos, negsuc, suc,
}
use nitrokit.Text.{Text}
use nitrokit.Clock.{Time, Duration, sub}
use nitrokit.Http.Laws.{write-sent, write_header-sent, IsFinal-informational}
use nitrokit.Http.{
  Response, Sent, status_ok, set_header, write_header, write, final_status, IsFinal, informational,
}

pub data Call : Type 0 where
  setting : String → Text → Call
  status : ℕ → Call
  bytes : Text → Call

pub record StatusRecorder : Type 0 where
  pub inner : Response
  pub status : ℕ

-- r.WriteHeader(code); Write and Header are the inner writer's.
pub record_header : ℕ → StatusRecorder → StatusRecorder
record_header code r = record { inner = write_header code r.inner; status = code }

unfoldable pub call : Call → Response → Response
call (setting name v) w = set_header name v w
call (status code) w = write_header code w
call (bytes b) w = write b w

unfoldable pub recorded_call : Call → StatusRecorder → StatusRecorder
unfolding record_header
recorded_call (setting name v) r = record r { inner = set_header name v r.inner }
recorded_call (status code) r = record_header code r
recorded_call (bytes b) r = record r { inner = write b r.inner }

-- The handler on a plain writer, and under the recorder.
unfoldable pub serve : List Call → Response → Response
serve [] w = w
serve (c ∷ cs) w = serve cs (call c w)

pub serve_recorded : List Call → StatusRecorder → StatusRecorder
serve_recorded [] r = r
serve_recorded (c ∷ cs) r = serve_recorded cs (recorded_call c r)

abbrev pub microsecond : ℕ
microsecond = 1_000

-- d.Round(time.Microsecond): to the nearest, halves away from zero.
abbrev round_up : ℕ → ℕ
round_up n =
    let rest = n % microsecond in
    if ltb (rest + rest) microsecond then n - rest else n + microsecond - rest

unfoldable pub round : Duration → Duration
round (pos n) = pos (round_up n)
round (negsuc n) = elim (round_up (suc n)) [ ℕ.zero ↦ pos 0 | suc m ↦ negsuc m ]

pub record Line : Type 0 where
  pub method : Text
  pub path : Text
  pub status : ℕ
  pub dur : Duration

-- The response and the line that is logged; the clock is read before and after.
unfoldable pub access_log : Text → Text → Time → Time → List Call → Response → Response × Line
unfolding serve_recorded round
access_log method path start end next w =
    let r = serve_recorded next (record { inner = w; status = status_ok }) in
    (
      r.inner,
      record { method = method; path = path; status = r.status; dur = round (sub end start) },
    )

serve_recorded-inner :
    (cs : List Call) (r : StatusRecorder) → (serve_recorded cs r).inner ≡ serve cs r.inner
unfolding serve_recorded serve recorded_call call
serve_recorded-inner [] r = refl
serve_recorded-inner (setting name v ∷ cs) r = serve_recorded-inner cs _
serve_recorded-inner (status code ∷ cs) r = serve_recorded-inner cs _
serve_recorded-inner (bytes b ∷ cs) r = serve_recorded-inner cs _

-- The log is transparent: the client gets what the handler alone would send.
pub access_log-serve :
    (method path : Text) (start end : Time) (next : List Call) (w : Response)
    → (access_log method path start end next w).0 ≡ serve next w
unfolding access_log
access_log-serve method path start end next w = serve_recorded-inner next _

-- Calls among which no status is given.
abbrev pub NoStatus : List Call → Type 0
NoStatus [] = Unit
NoStatus (status code ∷ cs) = ⊥
NoStatus (_ ∷ cs) = NoStatus cs

-- A handler that gives a status once at most, a final one, and none after it has written.
abbrev pub StatusFirst : List Call → Type 0
StatusFirst [] = Unit
StatusFirst (setting name v ∷ cs) = StatusFirst cs
StatusFirst (status code ∷ cs) = IsFinal code × NoStatus cs
StatusFirst (bytes b ∷ cs) = NoStatus cs

recorded_NoStatus :
    (cs : List Call) (r : StatusRecorder) → NoStatus cs → (serve_recorded cs r).status ≡ r.status
unfolding serve_recorded recorded_call
recorded_NoStatus [] r h = refl
recorded_NoStatus (setting name v ∷ cs) r h = recorded_NoStatus cs _ h
recorded_NoStatus (status code ∷ cs) r h = absurd h
recorded_NoStatus (bytes b ∷ cs) r h = recorded_NoStatus cs _ h

-- What has been sent stays sent.
serve_sent :
    (cs : List Call) (w : Response) (s : Sent) → w.sent ≡ some s → (serve cs w).sent ≡ some s
unfolding serve call set_header write_header write
serve_sent [] w s h = h
serve_sent (setting name v ∷ cs) w s h = serve_sent cs _ s h
serve_sent (status code ∷ cs) w s h = serve_sent cs _ s (ground arith)
serve_sent (bytes b ∷ cs) w s h = serve_sent cs _ s (ground arith)

final_of_sent : (w : Response) (s : Sent) → w.sent ≡ some s → final_status w ≡ s.status
final_of_sent w s h = ground arith

-- A status that is both recorded and sent, and is the last, is the one that is logged.
recorded_sent :
    (cs : List Call) (r : StatusRecorder) (s : Sent)
    → NoStatus cs
    → r.inner.sent ≡ some s
    → ((serve_recorded cs r).status ≡ r.status)
      × (final_status (serve_recorded cs r).inner ≡ s.status)
recorded_sent cs r s h sent =
    let kept : (serve_recorded cs r).inner.sent ≡ some s =
      rw (serve_recorded-inner cs r) (serve_sent cs r.inner s sent) in
    (recorded_NoStatus cs r h, final_of_sent (serve_recorded cs r).inner s kept)

recorded_final :
    (cs : List Call) (r : StatusRecorder)
    → StatusFirst cs
    → r.inner.sent ≡ none
    → r.status ≡ status_ok
    → (serve_recorded cs r).status ≡ final_status (serve_recorded cs r).inner
unfolding serve_recorded recorded_call record_header set_header
recorded_final [] r h fresh ok = ground arith
recorded_final (setting name v ∷ cs) r h fresh ok = recorded_final cs _ h fresh ok
recorded_final (status code ∷ cs) r (final, h) fresh ok =
    let (a, b) =
      recorded_sent cs (record_header code r) _ h
        (write_header-sent code r.inner (IsFinal-informational code final) fresh) in
    a ∙ sym b
recorded_final (bytes x ∷ cs) r h fresh ok =
    let (a, b) =
      recorded_sent cs (record r { inner = write x r.inner }) _ h (write-sent x r.inner fresh) in
    a ∙ ok ∙ sym b

-- On a response of which nothing has been sent, a handler that gives a status once at most,
-- before it writes, and one that is 101 or from 200 to 999, is logged with the status that the
-- client gets: 200 if it gives none.
pub access_log-StatusFirst :
    (method path : Text) (start end : Time) (next : List Call) (w : Response)
    → StatusFirst next
    → w.sent ≡ none
    → (access_log method path start end next w).1.status ≡ final_status (serve next w)
unfolding access_log
access_log-StatusFirst method path start end next w h fresh =
    let r : StatusRecorder = record { inner = w; status = status_ok } in
    recorded_final next r h fresh refl ∙ ap final_status (serve_recorded-inner next r)

NoStatus-StatusFirst : (cs : List Call) → NoStatus cs → StatusFirst cs
NoStatus-StatusFirst [] h = tt
NoStatus-StatusFirst (setting name v ∷ cs) h = NoStatus-StatusFirst cs h
NoStatus-StatusFirst (status code ∷ cs) h = absurd h
NoStatus-StatusFirst (bytes b ∷ cs) h = h

final_of_NoStatus :
    (cs : List Call) (w : Response)
    → NoStatus cs
    → w.sent ≡ none
    → final_status (serve cs w) ≡ status_ok
final_of_NoStatus cs w h fresh =
    let r : StatusRecorder = record { inner = w; status = status_ok } in
    ap final_status (sym (serve_recorded-inner cs r))
    ∙ sym (recorded_final cs r (NoStatus-StatusFirst cs h) fresh refl)
    ∙ recorded_NoStatus cs r h

write_header-informational :
    (code : ℕ) (w : Response) → informational code ≡ true → w.sent ≡ none → write_header code w ≡ w
unfolding write_header
write_header-informational code w early fresh = ground (arith, early, fresh)

-- On a response of which nothing has been sent, a handler that announces a status ahead, one from
-- 100 to 199 but 101, and then gives no status, is logged with what it has announced, although
-- the client gets 200.
pub access_log_of_informational :
    (method path : Text) (start end : Time) (code : ℕ) (rest : List Call) (w : Response)
    → informational code ≡ true
    → NoStatus rest
    → w.sent ≡ none
    → ((access_log method path start end (status code ∷ rest) w).1.status ≡ code)
      × (final_status (access_log method path start end (status code ∷ rest) w).0 ≡ status_ok)
unfolding access_log serve_recorded recorded_call record_header serve call
access_log_of_informational method path start end code rest w early h fresh =
    let r : StatusRecorder = record { inner = write_header code w; status = code } in
    (
      recorded_NoStatus rest r h,
      ap final_status (serve_recorded-inner rest r)
          ∙ ap (λ x. final_status (serve rest x)) (write_header-informational code w early fresh)
          ∙ final_of_NoStatus rest w h fresh,
    )

serve_recorded-append :
    (cs ds : List Call) (r : StatusRecorder)
    → serve_recorded (cs ++ ds) r ≡ serve_recorded ds (serve_recorded cs r)
unfolding serve_recorded
serve_recorded-append [] ds r = refl
serve_recorded-append (c ∷ cs) ds r = serve_recorded-append cs ds _

-- On a response of which nothing has been sent, a handler that writes bytes first and gives a
-- status later, the last one it gives, is logged with that status, although the client was sent
-- 200.
pub access_log_of_late_status :
    (method path : Text) (start end : Time) (b : Text) (mid : List Call) (code : ℕ)
    (rest : List Call) (w : Response)
    → NoStatus rest
    → w.sent ≡ none
    → ((access_log method path start end (bytes b ∷ mid ++ status code ∷ rest) w).1.status ≡ code)
      × (final_status (access_log method path start end (bytes b ∷ mid ++ status code ∷ rest) w).0
          ≡ status_ok)
unfolding access_log serve_recorded recorded_call record_header serve call
access_log_of_late_status method path start end b mid code rest w h fresh =
    let r : StatusRecorder = record { inner = write b w; status = status_ok } in
    let r' = serve_recorded mid r in
    let logged : (serve_recorded (mid ++ status code ∷ rest) r).status ≡ code =
      rw (serve_recorded-append mid (status code ∷ rest) r)
        (recorded_NoStatus rest (record_header code r') h) in
    (
      logged,
      rw (serve_recorded-inner (mid ++ status code ∷ rest) r) (
          final_of_sent (serve (mid ++ status code ∷ rest) (write b w)) _
            (serve_sent (mid ++ status code ∷ rest) (write b w) _ (write-sent b w fresh))),
    )
