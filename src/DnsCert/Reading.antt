-- ===== src/DnsCert/Reading.antt =====
-- Reading the one file of a manager.
use nitrokit.Prelude.{
  ℕ, zero, suc, ◌≡◌, ◌≢◌, ◌⊎◌, ◌<◌, refl, sym, ap, ◌∙◌, arith, inl, inr, Option, none, some, List,
  [], ◌∷◌, ◌++◌, length, Option-cases, append_assoc, append-nil,
}
use nitrokit.Text.{Text}
use nitrokit.Clock.{Time}
use nitrokit.Result.{ok, err, Result-cases}
use nitrokit.DnsCert.{Chain, Block, Keys, FileSystem}
use nitrokit.DnsCert.Store.{
  key_kind, certificate_kind, kind_of, Kind, private_key, chain_part, other, encode_chain,
  cert_data, read_blocks, assemble, certificate_of,
}
use nitrokit.DnsCert.Laws.{IsPem}

Kind-cases : (k : Kind) → (k ≡ private_key) ⊎ ((k ≡ chain_part) ⊎ (k ≡ other))
Kind-cases private_key = inl refl
Kind-cases chain_part = inr (inl refl)
Kind-cases other = inr (inr refl)

module _ {W K : Type 0} (keys : Keys W K) (fs : FileSystem W) (pem : IsPem keys) where
  read_blocks_ends :
      (fuel : ℕ) (s : Text) (key : Option K) (der : List Text)
      → length s < fuel
      → read_blocks keys fs fuel s key der ≢ none
  unfolding read_blocks
  read_blocks_ends zero s key der h = elim h [ ]
  read_blocks_ends (suc fuel) s key der h = elim (Option-cases (keys.pem_decode s)) [
    | inl e ↦ ground (arith, e)
    | inr ((b, rest), e) ↦
        let less : length rest < fuel = ground (arith, pem.decode_shorter s b rest e) in
        elim (Kind-cases (kind_of b.kind)) [
          | inl k ↦ elim (Result-cases (keys.parse_key b.bytes)) [
            | inl (key', p) ↦
                rw (e, k, p, read_blocks) (read_blocks_ends fuel rest (some key') der less)
            | inr (e', p) ↦ rw (e, k, p, read_blocks) (ground arith)
          ]
          | inr (inl k) ↦
              rw (e, k, read_blocks) (read_blocks_ends fuel rest key (der ++ b.bytes ∷ []) less)
          | inr (inr k) ↦ rw (e, k, read_blocks) (read_blocks_ends fuel rest key der less)
        ]
  ]

  -- Whatever bytes a file holds, the loop over its blocks ends within a round for each byte and one
  -- more.
  pub certificate_of_ends : (contents : Text) → certificate_of keys fs contents ≢ none
  unfolding certificate_of
  certificate_of_ends contents =
      elim (Option-cases (read_blocks keys fs (suc (length contents)) contents none [])) [
        | inl e ↦
            absurd (read_blocks_ends (suc (length contents)) contents none [] (ground arith) e)
        | inr (ok parts, e) ↦ ground (arith, e)
        | inr (err e', e) ↦ ground (arith, e)
      ]

  certificate_block : (d : Text) → Block
  certificate_block d = record { kind = certificate_kind; bytes = d }

  read_chain :
      (ds : List Text) (fuel : ℕ) (k : K) (der : List Text)
      → length (encode_chain keys fs ds) < fuel
      → read_blocks keys fs fuel (encode_chain keys fs ds) (some k) der
        ≡ some (ok (some k, der ++ ds))
  unfolding read_blocks encode_chain certificate_block
  read_chain ds zero k der h = elim h [ ]
  read_chain [] (suc fuel) k der h =
      rw (pem.decode_empty, read_blocks) (ap (λ x. some (ok (some k, x))) (sym (append-nil der)))
  read_chain (d ∷ ds) (suc fuel) k der h =
      let e = pem.decode_encode (certificate_block d) (encode_chain keys fs ds) (inr refl) in
      let less : length (encode_chain keys fs ds) < fuel =
        ground (arith, pem.decode_shorter _ _ _ e) in
      rw (e, read_blocks)
        (read_chain ds fuel k (der ++ d ∷ []) less
          ∙ ap (λ x. some (ok (some k, x))) (append_assoc der (d ∷ []) ds))

  -- What the store writes, the loading reads back.
  pub certificate_of-cert_data :
      (key : K) (der : Text) (chain : Chain) (not_after : Time)
      → keys.marshal_key key ≡ ok der
      → keys.parse_certificate chain.first ≡ ok not_after
      → certificate_of keys fs (cert_data keys fs der chain)
        ≡ some (ok (record { chain = chain; key = key; not_after = not_after }))
  unfolding certificate_of cert_data assemble read_blocks
  certificate_of-cert_data key der chain not_after marshalled parsed =
      let rest = encode_chain keys fs (chain.first ∷ chain.rest) in
      let contents = cert_data keys fs der chain in
      let e = pem.decode_encode (record { kind = key_kind; bytes = der }) rest (inl refl) in
      let less : length rest < length contents = pem.decode_shorter _ _ _ e in
      let all = read_chain (chain.first ∷ chain.rest) (length contents) key [] less in
      let parts : read_blocks keys fs (suc (length contents)) contents none []
          ≡ some (ok (some key, chain.first ∷ chain.rest)) =
        rw (e, pem.parse_marshal key der marshalled, read_blocks) all in
      rw (parts, parsed, certificate_of, assemble) refl
