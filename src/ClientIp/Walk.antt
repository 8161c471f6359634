-- ===== src/ClientIp/Walk.antt =====
-- The walk over X-Forwarded-For: what it returns, and what a client can forge.
use nitrokit.Prelude.{
  ◌≡◌, ◌⊎◌, inl, inr, refl, sym, ap, ◌∙◌, true, false, Option, none, some, List, [], ◌∷◌, ◌++◌,
  reverse, arith, All, append_assoc, ◌≡⟨◌⟩◌, ◌∎, Option-cases, Bool-cases, append-nil,
}
use mathlib.Core.List.{reverse-append, reverse-cons}
use nitrokit.Text.{Text}
use nitrokit.Netip.{Addr, unmap, parse_addr}
use nitrokit.ClientIp.{ProxyTrust, Request, trusted, peer_addr, hops, walk, client_ip}

-- A hop that parses, to a trusted address.
abbrev pub IsTrustedHop : Option ProxyTrust → Text → Type 0
IsTrustedHop p hop = (a : Addr) × (parse_addr hop ≡ some a) × (trusted p (unmap a) ≡ true)

-- A hop that ends the walk: malformed, or not trusted.
pub data EndsWalk (p : Option ProxyTrust) (hop : Text) : Type 0 where
  malformed : parse_addr hop ≡ none → EndsWalk p hop
  outside : (a : Addr) → parse_addr hop ≡ some a → trusted p (unmap a) ≡ false → EndsWalk p hop

-- What the walk answers at the hop that ends it.
abbrev pub answer : Addr → Text → Addr
answer peer hop = elim (parse_addr hop) [ none ↦ peer | some a ↦ unmap a ]

module _ (p : Option ProxyTrust) (peer : Addr) where
  walk_stop :
      (hop : Text) (rest : List Text) → EndsWalk p hop → walk p peer (hop ∷ rest) ≡ answer peer hop
  unfolding walk
  walk_stop hop rest (malformed e) = ground arith
  walk_stop hop rest (outside a e t) = ground arith

  walk_skip :
      (hop : Text) (rest : List Text)
      → IsTrustedHop p hop
      → walk p peer (hop ∷ rest) ≡ walk p peer rest
  unfolding walk
  walk_skip hop rest (a, e, t) = ground arith

  -- Trusted hops at the right, in their own order, are skipped.
  walk-reverse :
      (right : List Text) (rest : List Text)
      → All (IsTrustedHop p) right
      → walk p peer (reverse right ++ rest) ≡ walk p peer rest
  walk-reverse [] rest h = refl
  walk-reverse (hop ∷ right) rest (t, h) =
      walk p peer (reverse (hop ∷ right) ++ rest)
      ≡⟨ ap (walk p peer) (simp (reverse-cons, append_assoc)) ⟩
        walk p peer (reverse right ++ hop ∷ rest)
      ≡⟨ walk-reverse right (hop ∷ rest) h ⟩ walk p peer (hop ∷ rest)
      ≡⟨ walk_skip hop rest t ⟩ walk p peer rest ∎

  walk_split :
      (left : List Text) (hop : Text) (right : List Text)
      → EndsWalk p hop
      → All (IsTrustedHop p) right
      → walk p peer (reverse (left ++ hop ∷ right)) ≡ answer peer hop
  walk_split left hop right stop h =
      walk p peer (reverse (left ++ hop ∷ right))
      ≡⟨ ap (walk p peer) (simp (reverse-append, reverse-cons, append_assoc)) ⟩
        walk p peer (reverse right ++ hop ∷ reverse left)
      ≡⟨ walk-reverse right (hop ∷ reverse left) h ⟩ walk p peer (hop ∷ reverse left)
      ≡⟨ walk_stop hop (reverse left) stop ⟩ answer peer hop ∎

  walk_past_trusted :
      (right : List Text) → All (IsTrustedHop p) right → walk p peer (reverse right) ≡ peer
  unfolding walk
  walk_past_trusted right h =
      ap (walk p peer) (sym (append-nil (reverse right))) ∙ walk-reverse right [] h

  -- A walk ends at a hop with only trusted ones to its right, or passes them all.
  abbrev Split : List Text → Type 0
  Split hs =
      ((left : List Text) × (hop : Text) × (right : List Text) × (hs ≡ left ++ hop ∷ right)
        × EndsWalk p hop
        × All (IsTrustedHop p) right)
      ⊎ All (IsTrustedHop p) hs

  classify : (hop : Text) → EndsWalk p hop ⊎ IsTrustedHop p hop
  classify hop = elim (Option-cases (parse_addr hop)) [
    | inl e ↦ inl (malformed e)
    | inr (a, e) ↦ elim (Bool-cases (trusted p (unmap a))) [
      | inl t ↦ inr (a, e, t)
      | inr u ↦ inl (outside a e u)
    ]
  ]

  extend :
      (hop : Text) (hs : List Text)
      → EndsWalk p hop ⊎ IsTrustedHop p hop
      → Split hs
      → Split (hop ∷ hs)
  extend hop hs c (inl (left, h, right, e, stop, t)) =
      inl (hop ∷ left, h, right, ap (◌∷◌ hop) e, stop, t)
  extend hop hs (inl stop) (inr t) = inl ([], hop, hs, refl, stop, t)
  extend hop hs (inr here) (inr t) = inr (here, t)

  stop_or_none : (hs : List Text) → Split hs
  stop_or_none [] = inr tt
  stop_or_none (hop ∷ hs) = extend hop hs (classify hop) (stop_or_none hs)

-- An untrusted peer is the client, whatever headers it sends.
pub client_ip_of_untrusted_peer :
    (p : Option ProxyTrust) (r : Request)
    → trusted p (peer_addr r) ≡ false
    → client_ip p r ≡ peer_addr r
unfolding client_ip
client_ip_of_untrusted_peer p r h = ground arith

module _ (p : Option ProxyTrust) (r : Request) (t : trusted p (peer_addr r) ≡ true) where
  -- Behind a trusted peer, the rightmost hop that is malformed or not trusted decides, whatever
  -- stands to its left: an untrusted hop is the client, and a malformed one makes it the peer.
  pub client_ip_at_stop :
      (left : List Text) (hop : Text) (right : List Text)
      → hops r.forwarded ≡ left ++ hop ∷ right
      → EndsWalk p hop
      → All (IsTrustedHop p) right
      → client_ip p r ≡ answer (peer_addr r) hop
  unfolding client_ip
  client_ip_at_stop left hop right e stop h =
      rw t (rw e (walk_split p (peer_addr r) left hop right stop h))

  -- Behind a trusted peer, if every hop is a trusted proxy, or there is none, the peer is the
  -- client.
  pub client_ip_at_no_stop : All (IsTrustedHop p) (hops r.forwarded) → client_ip p r ≡ peer_addr r
  unfolding client_ip
  client_ip_at_no_stop h = rw t (walk_past_trusted p (peer_addr r) (hops r.forwarded) h)

peer_addr_of_remote : (r r' : Request) → r'.remote_addr ≡ r.remote_addr → peer_addr r' ≡ peer_addr r
unfolding peer_addr
peer_addr_of_remote r r' same = rw same

answer_lem :
    (p : Option ProxyTrust) (peer : Addr) (hop : Text)
    → EndsWalk p hop
    → (answer peer hop ≡ peer) ⊎ (trusted p (answer peer hop) ≡ false)
answer_lem p peer hop (malformed e) = inl (ground arith)
answer_lem p peer hop (outside a e u) = inr (rw (e, answer) u)

-- A client cannot move the answer by what it puts in front: for two requests from one peer, hops
-- before those of the first change nothing, provided one of the first's own hops is malformed or
-- not trusted and only trusted ones follow it.
pub client_ip_forged :
    (p : Option ProxyTrust) (r r' : Request) (forged left : List Text) (hop : Text)
    (right : List Text)
    → r'.remote_addr ≡ r.remote_addr
    → hops r'.forwarded ≡ forged ++ hops r.forwarded
    → hops r.forwarded ≡ left ++ hop ∷ right
    → EndsWalk p hop
    → All (IsTrustedHop p) right
    → client_ip p r' ≡ client_ip p r
client_ip_forged p r r' forged left hop right same longer own stop h =
    let peers = peer_addr_of_remote r r' same in
    elim (Bool-cases (trusted p (peer_addr r))) [
      | inl t ↦
          let t' : trusted p (peer_addr r') ≡ true = ap (trusted p) peers ∙ t in
          let all =
            longer ∙ ap (λ hs. forged ++ hs) own ∙ sym (append_assoc forged left (hop ∷ right)) in
          client_ip_at_stop p r' t' (forged ++ left) hop right all stop h
          ∙ ap (λ a. answer a hop) peers
          ∙ sym (client_ip_at_stop p r t left hop right own stop h)
      | inr u ↦
          client_ip_of_untrusted_peer p r' (ap (trusted p) peers ∙ u)
          ∙ peers
          ∙ sym (client_ip_of_untrusted_peer p r u)
    ]

-- The address returned is never that of a trusted proxy, unless it is the peer's own.
pub client_ip-not_trusted :
    (p : Option ProxyTrust) (r : Request)
    → (client_ip p r ≡ peer_addr r) ⊎ (trusted p (client_ip p r) ≡ false)
client_ip-not_trusted p r = elim (Bool-cases (trusted p (peer_addr r))) [
  | inr u ↦ inl (client_ip_of_untrusted_peer p r u)
  | inl t ↦ elim (stop_or_none p (peer_addr r) (hops r.forwarded)) [
    | inr all ↦ inl (client_ip_at_no_stop p r t all)
    | inl (left, hop, right, e, stop, h) ↦
        rw (client_ip_at_stop p r t left hop right e stop h) (answer_lem p (peer_addr r) hop stop)
  ]
]
