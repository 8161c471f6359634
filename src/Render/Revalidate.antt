-- ===== src/Render/Revalidate.antt =====
-- A page that is asked for again, and a page that is asked for by HEAD.
use nitrokit.Prelude.{
  ℕ, ◌≡◌, refl, sym, ap, ◌∙◌, true, false, not, ◌&&◌, none, some, [], ◌⊎◌, inl, inr, arith,
  Bool-cases, Option-cases,
}
use nitrokit.Dict.{lookup}
use nitrokit.Text.{Text, codes, text_beq, text_beq_iff, text_eq, contains}
use nitrokit.Http.{
  Header, Response, Sent, string_eq, get, set_header, write_header, status_not_modified,
  final_status, IsFresh, informational,
}
use nitrokit.Http.Laws.{get-set, write_header-sent}
use nitrokit.Cache.{etag_match}
use nitrokit.Render.{
  Templates, Request, etag_of, page_header, send_page, revalidates, reply, render,
}
use nitrokit.Render.Tag.{etag_match-etag_of}
use nitrokit.Render.Reply.{
  policy, has_tag, page_header-sent, page_header-body, send_page-sent, reply_of_no_tag,
  reply_of_stale, reply_of_match, reply_lem, root, sum_cases, render_of_absent, render_of_failed,
  render_of_done,
}

-- The header fields that a response has been sent with.
abbrev pub sent_fields : Response → Header
sent_fields w = elim w.sent [ none ↦ w.header | some s ↦ s.fields ]

sent_fields_lem : (w : Response) (s : Sent) → w.sent ≡ some s → sent_fields w ≡ s.fields
sent_fields_lem w s h = ground arith

tag_ne : (sha256 : Text → Text) (buf : Text) → text_beq (etag_of sha256 buf) [] ≡ false
unfolding etag_of
tag_ne sha256 buf = refl

-- The tag is not empty, and so a request that sends it back meets it.
revalidates-etag_of :
    (sha256 : Text → Text) (r : Request) (buf : Text)
    → get "If-None-Match" r.header ≡ etag_of sha256 buf
    → revalidates r (etag_of sha256 buf) ≡ true
unfolding revalidates
revalidates-etag_of sha256 r buf h =
    let ne : text_beq (etag_of sha256 buf) [] ≡ false = tag_ne sha256 buf in
    rw (revalidates, h) (rw (ne, etag_match-etag_of sha256 buf) refl)

module _ (sha256 : Text → Text) (itoa : ℕ → Text) (r : Request) (buf : Text) (w : Response) where
  -- The entity tag that a 200 is sent with, whichever way it goes.
  reply-etag :
      w.sent ≡ none
      → has_tag 200 w.header ≡ true
      → get "ETag" (sent_fields (reply sha256 itoa r 200 buf w)) ≡ etag_of sha256 buf
  unfolding set_header write_header
  reply-etag h tags =
      let p = page_header w in
      let tagged = set_header "ETag" (etag_of sha256 buf) p in
      let fresh : tagged.sent ≡ none = page_header-sent w ∙ h in
      elim (Bool-cases (revalidates r (etag_of sha256 buf))) [
        | inr stale ↦
            let page = send_page itoa r 200 buf tagged in
            rw (reply_of_stale sha256 itoa r 200 buf w tags stale) (
              ap (get "ETag")
                (sent_fields_lem page _ (send_page-sent itoa r 200 buf tagged refl fresh))
              ∙ simp get-set refl)
        | inl match ↦
            let answer = write_header status_not_modified tagged in
            rw (reply_of_match sha256 itoa r 200 buf w tags match) (
              ap (get "ETag") (sent_fields_lem answer _ (write_header-sent 304 tagged refl fresh))
              ∙ simp get-set refl)
      ]

-- The page sent for HEAD and for any method.
send_page-head :
    (itoa : ℕ → Text) (r r' : Request) (status : ℕ) (buf : Text) (w : Response)
    → informational status ≡ false
    → IsFresh w
    → r.method ≡ codes "HEAD"
    → ((send_page itoa r status buf w).sent ≡ (send_page itoa r' status buf w).sent)
      × ((send_page itoa r status buf w).body ≡ [])
unfolding send_page set_header write_header
send_page-head itoa r r' status buf w final (h, k) head = (
  send_page-sent itoa r status buf w final h ∙ sym (send_page-sent itoa r' status buf w final h),
  ground (arith, h, k, text_beq_iff r.method (codes "HEAD")),
)

reply-head :
    (sha256 : Text → Text) (itoa : ℕ → Text) (r r' : Request) (status : ℕ) (buf : Text)
    (w : Response)
    → informational status ≡ false
    → IsFresh w
    → r.method ≡ codes "HEAD"
    → r.header ≡ r'.header
    → ((reply sha256 itoa r status buf w).sent ≡ (reply sha256 itoa r' status buf w).sent)
      × ((reply sha256 itoa r status buf w).body ≡ [])
unfolding set_header write_header revalidates
reply-head sha256 itoa r r' status buf w final (h, k) head same =
    let p = page_header w in
    let tagged = set_header "ETag" (etag_of sha256 buf) p in
    let fresh : IsFresh p = (page_header-sent w ∙ h, page_header-body w ∙ k) in
    let alike : revalidates r (etag_of sha256 buf) ≡ revalidates r' (etag_of sha256 buf) =
      ap
        (λ x.
          not (text_beq (get "If-None-Match" x) [])
          && etag_match (get "If-None-Match" x) (etag_of sha256 buf))
        same in
    elim (Bool-cases (has_tag status w.header)) [
      | inr none_tag ↦
          rw
            (
              reply_of_no_tag sha256 itoa r status buf w none_tag,
              reply_of_no_tag sha256 itoa r' status buf w none_tag,
            )
            (send_page-head itoa r r' status buf p final fresh head)
      | inl tags ↦ elim (Bool-cases (revalidates r (etag_of sha256 buf))) [
        | inr stale ↦
            rw
              (
                reply_of_stale sha256 itoa r status buf w tags stale,
                reply_of_stale sha256 itoa r' status buf w tags (sym alike ∙ stale),
              )
              (send_page-head itoa r r' status buf tagged final fresh head)
        | inl match ↦
            rw
              (
                reply_of_match sha256 itoa r status buf w tags match,
                reply_of_match sha256 itoa r' status buf w tags (sym alike ∙ match),
              )
              (refl, ground (arith, fresh))
      ]
    ]

module _ (sha256 : Text → Text) (itoa : ℕ → Text) {T D : Type 0}
    (execute : T → Text → D → Text ⊎ Text) (t : Templates T) where
  -- A page that was rendered with status 200 on a fresh response, under a policy without no-store,
  -- is not sent again to a client that has it: if the next request for the same page and data, on a
  -- response with the same header, gives the ETag of the first answer as its If-None-Match, it gets
  -- a 304 without a body.
  pub render_again :
      (w : Response) (r r' : Request) (page : Text) (d : D) (tmpl : T) (buf : Text)
      → IsFresh w
      → lookup page t.pages ≡ some tmpl
      → execute tmpl (root sha256 itoa execute t page) d ≡ inl buf
      → contains (policy w.header) (codes "no-store") ≡ false
      → get "If-None-Match" r'.header
        ≡ get "ETag" (sent_fields (render sha256 itoa execute t w r page 200 d).1)
      → (final_status (render sha256 itoa execute t w r' page 200 d).1 ≡ 304)
        × ((render sha256 itoa execute t w r' page 200 d).1.body ≡ [])
  render_again w r r' page d tmpl buf fresh found done stored same =
      let first = render_of_done sha256 itoa execute t w r page 200 d tmpl buf found done in
      let second = render_of_done sha256 itoa execute t w r' page 200 d tmpl buf found done in
      let tags : has_tag 200 w.header ≡ true = rw stored refl in
      let tag : get "If-None-Match" r'.header ≡ etag_of sha256 buf =
        same
        ∙ ap (λ x. get "ETag" (sent_fields x.1)) first
        ∙ reply-etag sha256 itoa r buf w fresh.0 tags in
      let meets = revalidates-etag_of sha256 r' buf tag in
      let (code, sent) = reply_lem sha256 itoa r' 200 buf w fresh refl in
      rw second (ground (arith, code, tags, meets), ground (arith, sent, tags, meets))

  -- On a fresh response, with a status that commits it, a HEAD request gets the status and the header fields that any other request
  -- with the same header gets, and no body.
  pub render-head :
      (w : Response) (r r' : Request) (page : Text) (status : ℕ) (d : D)
      → informational status ≡ false
      → IsFresh w
      → r.method ≡ codes "HEAD"
      → r.header ≡ r'.header
      → ((render sha256 itoa execute t w r page status d).1.sent
          ≡ (render sha256 itoa execute t w r' page status d).1.sent)
        × ((render sha256 itoa execute t w r page status d).1.body ≡ [])
  render-head w r r' page status d final fresh head same =
      elim (Option-cases (lookup page t.pages)) [
        | inl missing ↦
            let a = render_of_absent sha256 itoa execute t w r page status d missing in
            let b = render_of_absent sha256 itoa execute t w r' page status d missing in
            (ap (λ x. x.1.sent) a ∙ sym (ap (λ x. x.1.sent) b), ap (λ x. x.1.body) a ∙ fresh.1)
        | inr (tmpl, found) ↦ elim (sum_cases (execute tmpl (root sha256 itoa execute t page) d)) [
          | inl (buf, done) ↦
              let a = render_of_done sha256 itoa execute t w r page status d tmpl buf found done in
              let b = render_of_done sha256 itoa execute t w r' page status d tmpl buf found done in
              let (one, two) = reply-head sha256 itoa r r' status buf w final fresh head same in
              (ap (λ x. x.1.sent) a ∙ one ∙ sym (ap (λ x. x.1.sent) b), ap (λ x. x.1.body) a ∙ two)
          | inr (err, bad) ↦
              let a = render_of_failed sha256 itoa execute t w r page status d tmpl err found bad in
              let b =
                render_of_failed sha256 itoa execute t w r' page status d tmpl err found bad in
              (ap (λ x. x.1.sent) a ∙ sym (ap (λ x. x.1.sent) b), ap (λ x. x.1.body) a ∙ fresh.1)
        ]
      ]
