-- ===== src/Catalog/Again.antt =====
-- A generation that is asked for again, with its order reference, answers what it has answered.
use brevyn_cloud.Base.{
  ℕ, suc, ◌+◌, ◌≡◌, refl, sym, ◌∙◌, ap, subst, Bool, false, Option, none, some, List, [], ◌∷◌, Text,
  text_eq_refl, inl, inr, Option-cases, find, is_blank, trim_space, to_lower,
}
use brevyn_cloud.Redeem.{Amounts, RedeemCode}
use brevyn_cloud.Catalog.{
  GeneratedCode, generated_codes, Batch, Vault, encrypt_generated_codes, decrypt_generated_codes,
  GenerateRequest, FreshCodes, Generated, batch_generated, duplicate_order_ref, product_not_found,
  generation_failed, invalid_product, Product, Shop, validate_product_for_generation, new_code,
  insert_code, insert_codes, find_batch, is_batch_taken, stored_batch, new_batch, insert_batch,
  generate_for, is_product, generate_redeem_codes,
}
use brevyn_cloud.Catalog.Stored.{
  VaultValid, HasSize, Encrypted, stored_not_blank, decrypt-encrypt_generated_codes,
}

-- A request as the handler passes it on: trimmed, with an order reference and at least one code.
pub record IsSanitized (req : GenerateRequest) : Type 0 where
  pub source_trimmed : trim_space req.source ≡ req.source
  pub order_trimmed : trim_space req.order_ref ≡ req.order_ref
  pub has_order_ref : is_blank req.order_ref ≡ false
  pub less_one : ℕ
  pub has_count : req.count ≡ suc less_one

module _ (amounts : Amounts) (is_positive : amounts.Amount → Bool) (hash : Text → Text)
    (vault : Vault) (valid : VaultValid vault) (req : GenerateRequest) (sane : IsSanitized req)
    (fresh fresh' : FreshCodes) (sized : HasSize vault.crypto.nonce_size fresh.nonce)
    (now now' : ℕ) where
  again : Shop amounts → Generated × Shop amounts
  again = generate_redeem_codes amounts is_positive hash vault fresh' now' req

  -- A batch that is answered is answered again, and nothing changes.
  abbrev SameAgain : Generated × Shop amounts → Type 0
  SameAgain (batch_generated b generated, shop) = again shop ≡ (batch_generated b generated, shop)
  SameAgain (_, shop) = Unit

  abbrev SameMade : Option (Generated × Shop amounts) → Type 0
  SameMade none = Unit
  SameMade (some done) = SameAgain done

  found_batch :
      (b : Batch) (batches : List Batch)
      → b.source ≡ req.source
      → b.order_ref ≡ req.order_ref
      → find_batch req.source req.order_ref (b ∷ batches) ≡ some b
  unfolding find_batch
  found_batch b batches source order =
      rw
        (
          sane.order_trimmed,
          sane.has_order_ref,
          sane.source_trimmed,
          find_batch,
          source,
          order,
          text_eq_refl (to_lower req.source),
          text_eq_refl (to_lower req.order_ref),
          sane.has_order_ref,
        )
        refl

  stored_again :
      (shop : Shop amounts) (b : Batch)
      → find_batch req.source req.order_ref shop.batches ≡ some b
      → again shop ≡ (stored_batch amounts is_positive hash vault fresh' now' b, shop)
  unfolding again generate_redeem_codes
  stored_again shop b found = rw (found, generate_redeem_codes)

  stored-batch :
      (b : Batch) (code : Text) (values : List Text)
      → Encrypted amounts is_positive hash vault valid fresh fresh' sized now now'
          (code ∷ values)
          b.encrypted_codes
      → stored_batch amounts is_positive hash vault fresh' now' b
        ≡ batch_generated b (generated_codes (code ∷ values))
  unfolding stored_batch
  stored-batch b code values h = rw (
    stored_not_blank amounts is_positive hash vault valid fresh fresh' sized now now' _ _ h,
    decrypt-encrypt_generated_codes amounts is_positive hash vault valid fresh fresh' sized now now'
        _ _ h,
    stored_batch,
  )

  abbrev IsNotEmpty : Option (List Text × List (RedeemCode amounts)) → Type 0
  IsNotEmpty none = Unit
  IsNotEmpty (some ([], table)) = ⊥
  IsNotEmpty (some (code ∷ values, table)) = Unit

  inserted-IsNotEmpty :
      (left index : ℕ) (p : Product amounts) (batch next : ℕ) (table : List (RedeemCode amounts))
      → IsNotEmpty (insert_codes amounts hash fresh now (suc left) index p batch next req table)
  unfolding insert_codes
  inserted-IsNotEmpty left index p batch next table = elim (Option-cases (fresh.code index)) [
    | inl e ↦ rw (e, insert_codes) tt
    | inr (code, e) ↦
        let new = new_code amounts hash fresh now (next + index) index p batch req code in
        elim (Option-cases (insert_code amounts hash fresh now new table)) [
          | inl e' ↦ rw (e, e', insert_codes) tt
          | inr (table', e') ↦
              elim (Option-cases
                (insert_codes amounts hash fresh now left (suc index) p batch next req table')) [
                  | inl e'' ↦ rw (e, e', e'', insert_codes) tt
                  | inr (done, e'') ↦ rw (e, e', e'', insert_codes) tt
                ]
        ]
  ]

  new-SameAgain :
      (p : Product amounts) (shop shop' : Shop amounts) (values : List Text)
      (table : List (RedeemCode amounts)) (secret : Text)
      → IsNotEmpty (some (values, table))
      → Encrypted amounts is_positive hash vault valid fresh fresh' sized now now' values secret
      → let b = new_batch amounts is_positive hash vault fresh now p shop.next_batch req secret in
        shop'.batches ≡ b ∷ shop.batches
        → SameAgain (batch_generated b (generated_codes values), shop')
  unfolding new_batch
  new-SameAgain p shop shop' [] table secret filled h batches = absurd filled
  new-SameAgain p shop shop' (code ∷ values) table secret filled h batches =
      let b = new_batch amounts is_positive hash vault fresh now p shop.next_batch req secret in
      let found : find_batch req.source req.order_ref shop'.batches ≡ some b =
        rw batches (found_batch b shop.batches refl refl) in
      stored_again shop' b found ∙ ap (λ (g : Generated). (g, shop')) (stored-batch b code values h)

  insert_batch-SameMade :
      (p : Product amounts) (shop : Shop amounts)
      → SameMade (insert_batch amounts is_positive hash vault fresh now p req shop)
  unfolding insert_batch
  insert_batch-SameMade p shop =
      let b = new_batch amounts is_positive hash vault fresh now p shop.next_batch req [] in
      let loop = λ (n : ℕ).
        insert_codes amounts hash fresh now n 0 p shop.next_batch shop.next_code req shop.codes in
      let filled : IsNotEmpty (loop req.count) =
        subst (λ n. IsNotEmpty (loop n)) (sym sane.has_count)
          (inserted-IsNotEmpty sane.less_one 0 p shop.next_batch shop.next_code shop.codes) in
      elim (Option-cases (find (is_batch_taken b) shop.batches)) [
        | inr (taken, e) ↦ rw (e, insert_batch) tt
        | inl free ↦ elim (Option-cases (loop req.count)) [
          | inl e ↦ rw (free, e, insert_batch) tt
          | inr ((values, table), e) ↦
              elim (Option-cases
                (encrypt_generated_codes amounts is_positive hash vault fresh now values)) [
                  | inl e' ↦ rw (free, e, e', insert_batch) tt
                  | inr (secret, e') ↦
                      rw (free, e, e', insert_batch)
                        (new-SameAgain p shop _ values table secret (subst IsNotEmpty e filled) e'
                          refl)
                ]
        ]
      ]

  answered-SameAgain :
      (g : Generated) (shop : Shop amounts) → again shop ≡ (g, shop) → SameAgain (g, shop)
  answered-SameAgain (batch_generated b generated) shop h = h
  answered-SameAgain (duplicate_order_ref b) shop h = tt
  answered-SameAgain product_not_found shop h = tt
  answered-SameAgain generation_failed shop h = tt
  answered-SameAgain (invalid_product e) shop h = tt

  generate-SameAgain :
      (shop : Shop amounts)
      → SameAgain (generate_redeem_codes amounts is_positive hash vault fresh now req shop)
  unfolding generate_redeem_codes generate_for stored_batch decrypt_generated_codes
  generate-SameAgain shop = elim (Option-cases (find_batch req.source req.order_ref shop.batches)) [
    | inr (b, e) ↦ rw (e, generate_redeem_codes) (answered-SameAgain _ shop (stored_again shop b e))
    | inl first ↦
        elim (Option-cases (
          find (is_product amounts is_positive hash vault fresh now req.product_id)
            shop.products)) [
              | inl e ↦ rw (first, e, generate_redeem_codes) tt
              | inr (p, e) ↦
                  elim (Option-cases (validate_product_for_generation amounts is_positive p)) [
                    | inr (bad, e') ↦ rw (first, e, e', generate_redeem_codes, generate_for) tt
                    | inl sound ↦
                        let made = insert_batch-SameMade p shop in
                        elim (Option-cases
                          (insert_batch amounts is_positive hash vault fresh now p req shop)) [
                            | inl e' ↦
                                rw (first, e, sound, e', generate_redeem_codes, generate_for) tt
                            | inr (done, e') ↦
                                rw (first, e, sound, e', generate_redeem_codes, generate_for)
                                  (subst SameMade e' made)
                          ]
                  ]
            ]
  ]

  -- A generation that succeeded is safe to repeat: asked for again with its order reference, later
  -- and with other random codes at hand, it answers the same batch with the same codes and changes
  -- nothing, since the stored codes are decrypted again. The request is one that the handler has
  -- trimmed, with an order reference and a count of one or more; the key has not changed; base64
  -- decodes what it has encoded, AES-GCM opens what it has sealed with a nonce of its size, and JSON
  -- reads back a list of texts.
  pub generate_idem :
      (shop shop' : Shop amounts) (b : Batch) (generated : List GeneratedCode)
      → generate_redeem_codes amounts is_positive hash vault fresh now req shop
        ≡ (batch_generated b generated, shop')
      → generate_redeem_codes amounts is_positive hash vault fresh' now' req shop'
        ≡ (batch_generated b generated, shop')
  unfolding again
  generate_idem shop shop' b generated h = subst SameAgain h (generate-SameAgain shop)
