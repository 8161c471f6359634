-- ===== src/Render/Reply.antt =====
-- What `Render` answers: its errors, the status, the body, and the entity tag.
use nitrokit.Prelude.{
  ℕ, ◌≡◌, ◌≢◌, refl, sym, ap, ◌∙◌, Bool, true, false, not, ◌&&◌, Option, none, some, [], ◌⊎◌, inl,
  inr, ◌==◌, arith, if◌then◌else◌, Bool-cases, Option-cases, length,
}
use nitrokit.Dict.{lookup}
use nitrokit.Text.{Text, codes, text_beq, text_eq, contains}
use nitrokit.Http.{
  Header, Response, string_eq, get, set, set_header, write_header, write, status_ok,
  status_not_modified, final_status, IsFresh, HasBody, informational,
}
use nitrokit.Http.Laws.{get-set}
use nitrokit.Cache.{no_cache}
use nitrokit.Render.{
  Templates, Request, RenderError, no_template, failed, etag_of, page_header, send_page,
  revalidates, reply, render,
}

-- The Cache-Control of a page: the handler's, and no-cache if it has set none.
abbrev pub policy : Header → Text
policy h = if text_beq (get "Cache-Control" h) [] then codes "no-cache" else get "Cache-Control" h

pub page_header-policy :
    (w : Response) → get "Cache-Control" (page_header w).header ≡ policy w.header
unfolding page_header no_cache set_header
page_header-policy w =
    let same : get "Cache-Control" (set "Content-Type" (codes "text/html; charset=utf-8") w.header)
        ≡ get "Cache-Control" w.header =
      get-set "Content-Type" "Cache-Control" (codes "text/html; charset=utf-8") w.header in
    elim (Bool-cases (text_beq (get "Cache-Control" w.header) [])) [
      | inl e ↦ simp (same, e, get-set) refl
      | inr e ↦ simp (same, e, get-set) refl
    ]

pub page_header-sent : (w : Response) → (page_header w).sent ≡ w.sent
unfolding page_header no_cache set_header
page_header-sent w = ground arith

pub page_header-body : (w : Response) → (page_header w).body ≡ w.body
unfolding page_header no_cache set_header
page_header-body w = ground arith

-- What is sent with a page, for any method, with a status that commits the response; the body is left out for HEAD.
pub send_page-sent :
    (itoa : ℕ → Text) (r : Request) (status : ℕ) (buf : Text) (w : Response)
    → informational status ≡ false
    → w.sent ≡ none
    → (send_page itoa r status buf w).sent
      ≡ some
          (record { status = status; fields = set "Content-Length" (itoa (length buf)) w.header })
unfolding send_page set_header write_header write
send_page-sent itoa r status buf w final h = ground arith

pub HasBody-informational : (status : ℕ) → HasBody status → informational status ≡ false
HasBody-informational status h = ground (arith, h)

pub send_page-body :
    (itoa : ℕ → Text) (r : Request) (status : ℕ) (buf : Text) (w : Response)
    → IsFresh w
    → HasBody status
    → (send_page itoa r status buf w).body ≡ (if text_beq r.method (codes "HEAD") then [] else buf)
unfolding send_page set_header write_header write
send_page-body itoa r status buf w (h, k) ok = ground arith

-- Whether a page carries an entity tag: a 200 whose policy lets it be stored.
abbrev pub has_tag : ℕ → Header → Bool
has_tag status h = status == status_ok && not (contains (policy h) (codes "no-store"))

module _ (sha256 : Text → Text) (itoa : ℕ → Text) (r : Request) (status : ℕ) (buf : Text)
    (w : Response) where
  -- The three ways of a reply.
  pub reply_of_no_tag :
      has_tag status w.header ≡ false
      → reply sha256 itoa r status buf w ≡ send_page itoa r status buf (page_header w)
  unfolding reply
  reply_of_no_tag h = ground (arith, page_header-policy w)

  pub reply_of_stale :
      has_tag status w.header ≡ true
      → revalidates r (etag_of sha256 buf) ≡ false
      → reply sha256 itoa r status buf w
        ≡ send_page itoa r status buf (set_header "ETag" (etag_of sha256 buf) (page_header w))
  unfolding reply
  reply_of_stale h k = ground (arith, page_header-policy w)

  pub reply_of_match :
      has_tag status w.header ≡ true
      → revalidates r (etag_of sha256 buf) ≡ true
      → reply sha256 itoa r status buf w
        ≡ write_header status_not_modified (set_header "ETag" (etag_of sha256 buf) (page_header w))
  unfolding reply
  reply_of_match h k = ground (arith, page_header-policy w)

  pub reply_lem :
      IsFresh w
      → HasBody status
      → (final_status (reply sha256 itoa r status buf w)
          ≡ (if has_tag status w.header && revalidates r (etag_of sha256 buf) then 304 else status))
        × ((reply sha256 itoa r status buf w).body ≡ (
            if has_tag status w.header && revalidates r (etag_of sha256 buf)
            then []
            else if text_beq r.method (codes "HEAD")
            then []
            else buf))
  unfolding set_header write_header
  reply_lem (h, k) ok =
      let p = page_header w in
      let tagged = set_header "ETag" (etag_of sha256 buf) p in
      let fresh : IsFresh p = (page_header-sent w ∙ h, page_header-body w ∙ k) in
      elim (Bool-cases (has_tag status w.header)) [
        | inr none_tag ↦ rw (reply_of_no_tag none_tag) (
            ground (
              arith,
              none_tag,
              send_page-sent itoa r status buf p (HasBody-informational status ok) fresh.0,
              send_page-body itoa r status buf p fresh ok,
            ))
        | inl tags ↦ elim (Bool-cases (revalidates r (etag_of sha256 buf))) [
          | inr stale ↦ rw (reply_of_stale tags stale) (
              ground (
                arith,
                tags,
                stale,
                send_page-sent itoa r status buf tagged (HasBody-informational status ok) fresh.0,
                send_page-body itoa r status buf tagged fresh ok,
              ))
          | inl match ↦ rw (reply_of_match tags match) (ground (arith, tags, match, fresh))
        ]
      ]

pub sum_cases : {A B : Type 0} (x : A ⊎ B) → ((a : A) × (x ≡ inl a)) ⊎ ((b : B) × (x ≡ inr b))
sum_cases (inl a) = inl (a, refl)
sum_cases (inr b) = inr (b, refl)

some_inj : {A : Type 0} {x y : A} → some x ≡ some y → x ≡ y
some_inj h = cc

none_ne : {A : Type 0} {x : A} → ◌≢◌ {A = Option A} none (some x)
none_ne h = cc

module _ (sha256 : Text → Text) (itoa : ℕ → Text) {T D : Type 0}
    (execute : T → Text → D → Text ⊎ Text) (t : Templates T) where
  -- The name under which a page is executed.
  abbrev pub root : Text → Text
  root page = if t.layout then codes "base.html" else page

  pub render_of_absent :
      (w : Response) (r : Request) (page : Text) (status : ℕ) (d : D)
      → lookup page t.pages ≡ none
      → render sha256 itoa execute t w r page status d ≡ (some (no_template page), w)
  unfolding render
  render_of_absent w r page status d missing = rw (render, missing) refl

  pub render_of_failed :
      (w : Response) (r : Request) (page : Text) (status : ℕ) (d : D) (tmpl : T) (err : Text)
      → lookup page t.pages ≡ some tmpl
      → execute tmpl (root page) d ≡ inr err
      → render sha256 itoa execute t w r page status d ≡ (some (failed page err), w)
  unfolding render
  render_of_failed w r page status d tmpl err found bad = rw (render, found) (rw bad refl)

  pub render_of_done :
      (w : Response) (r : Request) (page : Text) (status : ℕ) (d : D) (tmpl : T) (buf : Text)
      → lookup page t.pages ≡ some tmpl
      → execute tmpl (root page) d ≡ inl buf
      → render sha256 itoa execute t w r page status d ≡ (none, reply sha256 itoa r status buf w)
  unfolding render
  render_of_done w r page status d tmpl buf found done = rw (render, found) (rw done refl)

  -- On a fresh response, with a status that carries a body, a page that is there and executes is
  -- rendered without an error. The client gets the status asked for, and the page for a body unless
  -- the method is HEAD; but 304 and no body if that status is 200, the policy does not say no-store,
  -- and the request's If-None-Match meets the entity tag of the page.
  pub render_page :
      (w : Response) (r : Request) (page : Text) (status : ℕ) (d : D) (tmpl : T) (buf : Text)
      → IsFresh w
      → HasBody status
      → lookup page t.pages ≡ some tmpl
      → execute tmpl (root page) d ≡ inl buf
      → ((render sha256 itoa execute t w r page status d).0 ≡ none)
        × (final_status (render sha256 itoa execute t w r page status d).1 ≡ (
            if has_tag status w.header && revalidates r (etag_of sha256 buf) then 304 else status))
        × ((render sha256 itoa execute t w r page status d).1.body ≡ (
            if has_tag status w.header && revalidates r (etag_of sha256 buf)
            then []
            else if text_beq r.method (codes "HEAD")
            then []
            else buf))
  render_page w r page status d tmpl buf fresh ok found done =
      let (code, sent) = reply_lem sha256 itoa r status buf w fresh ok in
      rw (render_of_done w r page status d tmpl buf found done) (refl, code, sent)

  -- An error means that nothing has been written or set: the response is as it was. There is one
  -- exactly if the page is missing or does not execute.
  pub render_error :
      (w : Response) (r : Request) (page : Text) (status : ℕ) (d : D) (e : RenderError)
      → (render sha256 itoa execute t w r page status d).0 ≡ some e
      → ((render sha256 itoa execute t w r page status d).1 ≡ w)
        × (((lookup page t.pages ≡ none) × (e ≡ no_template page))
            ⊎ ((tmpl : T) × (err : Text) × (lookup page t.pages ≡ some tmpl)
                × (execute tmpl (root page) d ≡ inr err)
                × (e ≡ failed page err)))
  render_error w r page status d e h = elim (Option-cases (lookup page t.pages)) [
    | inl missing ↦
        let x = render_of_absent w r page status d missing in
        (ap (λ p. p.1) x, inl (missing, some_inj (sym h ∙ ap (λ p. p.0) x)))
    | inr (tmpl, found) ↦ elim (sum_cases (execute tmpl (root page) d)) [
      | inl (buf, done) ↦
          let x = render_of_done w r page status d tmpl buf found done in
          absurd (none_ne (sym (ap (λ p. p.0) x) ∙ h))
      | inr (err, bad) ↦
          let x = render_of_failed w r page status d tmpl err found bad in
          (ap (λ p. p.1) x, inr (tmpl, err, found, bad, some_inj (sym h ∙ ap (λ p. p.0) x)))
    ]
  ]
