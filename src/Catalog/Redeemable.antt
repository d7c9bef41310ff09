-- ===== src/Catalog/Redeemable.antt =====
-- The codes that a generation answers can be redeemed.
use brevyn_cloud.Base.{
  ℕ, zero, suc, ◌+◌, ◌≡◌, refl, sym, subst, Bool, true, Option, none, some, List, [], ◌∷◌, ◌++◌,
  Text, text_eq_refl, arith, inl, inr, All, Bool-cases, Option-cases, find, find-some-append,
  find-none-append, ◌==◌,
}
use brevyn_cloud.Redeem.{
  Amounts, Kind, balance, subscription, unsupported, RedeemCode, GatewayOperation, add_balance,
  assign_subscription, accepted, normalize_code, is_unused, gateway_operation_for, group_or_default,
  unused,
}
use brevyn_cloud.Redeem.Outcomes.{has_code_hash}
use brevyn_cloud.Catalog.{
  GeneratedCode, generated_code, generated_codes, Vault, encrypt_generated_codes, GenerateRequest,
  FreshCodes, Generated, batch_generated, Product, Shop, validate_benefit,
  validate_product_for_generation, new_code, is_same_code, insert_code, insert_codes, find_batch,
  is_batch_taken, new_batch, insert_batch, generate_for, is_product, generate_redeem_codes,
}

module _ (amounts : Amounts) (hash : Text → Text) where
  abbrev Table : Type 0
  Table = List (RedeemCode amounts)

  -- What is found by a hash stays found.
  abbrev Keeps : Table → Table → Type 0
  Keeps table table' =
      (h : Text) (c : RedeemCode amounts)
      → find (has_code_hash amounts h) table ≡ some c
      → find (has_code_hash amounts h) table' ≡ some c

  -- The code is in the table, and is what `P` says.
  abbrev pub HasCode : (RedeemCode amounts → Type 0) → Table → Text → Type 0
  HasCode P table code =
      (c : RedeemCode amounts) × (find (has_code_hash amounts (hash (normalize_code code))) table
        ≡ some c)
      × P c

  AfterInsert : RedeemCode amounts → Table → Option Table → Type 0
  AfterInsert new table none = Unit
  AfterInsert new table (some table') =
      (find (has_code_hash amounts new.code_hash) table' ≡ some new) × Keeps table table'

  module _ (fresh : FreshCodes) (now : ℕ) where
    insert_code-AfterInsert :
        (new : RedeemCode amounts) (table : Table)
        → AfterInsert new table (insert_code amounts hash fresh now new table)
    unfolding insert_code AfterInsert
    insert_code-AfterInsert new table =
        elim (Option-cases (find (is_same_code amounts hash fresh now new) table)) [
          | inr (taken, e) ↦ rw (e, insert_code) tt
          | inl free ↦
              let After : Option Table → Type 0 = AfterInsert new table in
              let same : insert_code amounts hash fresh now new table ≡ some (table ++ (new ∷ [])) =
                rw (free, insert_code) in
              subst After (sym same) (
                find-none-append _ _ table new free (λ x h. ground (arith, h))
                    (text_eq_refl new.code_hash),
                (λ h c found. find-some-append _ table (new ∷ []) found),
              )
        ]

    module _ (p : Product amounts) (batch next : ℕ) (req : GenerateRequest) where
      -- The row is a new one of the product.
      abbrev pub IsNew : RedeemCode amounts → Type 0
      IsNew c =
          (c.status ≡ unused)
          × (c.kind ≡ p.benefit_type)
          × (c.external_group_id ≡ p.external_group_id)
          × (c.validity_days ≡ p.validity_days)
          × (c.expires_at ≡ req.expires_at)

      AfterLoop : Table → Option (List Text × Table) → Type 0
      AfterLoop table none = Unit
      AfterLoop table (some (values, table')) =
          All (HasCode IsNew table') values × Keeps table table'

      inserted-AfterLoop :
          (left index : ℕ) (table : Table)
          → AfterLoop table (insert_codes amounts hash fresh now left index p batch next req table)
      unfolding insert_codes new_code AfterLoop AfterInsert
      inserted-AfterLoop zero index table = (tt, (λ h c found. found))
      inserted-AfterLoop (suc left) index table = elim (Option-cases (fresh.code index)) [
        | inl e ↦ rw (e, insert_codes) tt
        | inr (code, e) ↦
            let new = new_code amounts hash fresh now (next + index) index p batch req code in
            elim (Option-cases (insert_code amounts hash fresh now new table)) [
              | inl e' ↦ rw (e, e', insert_codes) tt
              | inr (table', e') ↦
                  let (found, kept) =
                    subst (AfterInsert new table) e' (insert_code-AfterInsert new table) in
                  let rest = inserted-AfterLoop left (suc index) table' in
                  elim (Option-cases (
                    insert_codes amounts hash fresh now left (suc index) p batch next req table')) [
                      | inl e'' ↦ rw (e, e', e'', insert_codes) tt
                      | inr ((values, table''), e'') ↦
                          let (all, kept') = subst (AfterLoop table') e'' rest in
                          rw (e, e', e'', insert_codes)
                            (
                              (
                                (
                                  new,
                                  kept' new.code_hash new found,
                                  (refl, refl, refl, refl, refl),
                                ),
                                all,
                              ),
                              (λ h c found'. kept' h c (kept h c found')),
                            )
                    ]
            ]
      ]

-- The codes of a valid product fit: no redemption of one is refused for its configuration.
abbrev pub Fits : (amounts : Amounts) → RedeemCode amounts → Type 0
Fits amounts c =
    (default_group : ℕ)
    → (operation : GatewayOperation) × (gateway_operation_for c.kind
          (group_or_default default_group c.external_group_id) c.validity_days
        ≡ accepted operation)

module _ (amounts : Amounts) (is_positive : amounts.Amount → Bool) where
  benefit-Fits :
      (kind : Kind) (p : Product amounts) (default_group : ℕ)
      → validate_benefit amounts is_positive kind p ≡ none
      → (operation : GatewayOperation) × (gateway_operation_for kind
            (group_or_default default_group p.external_group_id)
            p.validity_days
          ≡ accepted operation)
  unfolding validate_benefit gateway_operation_for group_or_default
  benefit-Fits balance p default_group h = (add_balance, refl)
  benefit-Fits subscription p default_group h = elim (Bool-cases (p.external_group_id == 0)) [
    | inl e ↦ absurd (ground (arith, h, e))
    | inr group ↦ elim (Bool-cases (p.validity_days == 0)) [
      | inl e ↦ absurd (ground (arith, h, e))
      | inr days ↦ (assign_subscription, rw (group, group, days) refl)
    ]
  ]
  benefit-Fits (unsupported kind) p default_group h = absurd (ground (arith, h))

  valid-Fits :
      (p : Product amounts) (default_group : ℕ)
      → validate_product_for_generation amounts is_positive p ≡ none
      → (operation : GatewayOperation) × (gateway_operation_for p.benefit_type
            (group_or_default default_group p.external_group_id)
            p.validity_days
          ≡ accepted operation)
  unfolding validate_product_for_generation
  valid-Fits p default_group h = benefit-Fits p.benefit_type p default_group (ground (arith, h))

module _ (amounts : Amounts) (is_positive : amounts.Amount → Bool) (hash : Text → Text)
    (vault : Vault) (fresh : FreshCodes) (now : ℕ) (req : GenerateRequest) where
  -- The code is in the table, unused, with the expiry that was asked for, and fits.
  abbrev pub IsRedeemable : List (RedeemCode amounts) → Text → Type 0
  IsRedeemable table code =
      HasCode amounts hash
        (λ (c : RedeemCode amounts).
          (is_unused c.status ≡ true) × (c.expires_at ≡ req.expires_at) × Fits amounts c)
        table code

  abbrev pub AllRedeemable : Generated × Shop amounts → Type 0
  AllRedeemable (batch_generated b generated, shop) =
      All (λ (g : GeneratedCode). IsRedeemable shop.codes g.code) generated
  AllRedeemable (_, shop) = Unit

  new-IsRedeemable :
      (p : Product amounts) (batch next : ℕ) (table : List (RedeemCode amounts))
      → validate_product_for_generation amounts is_positive p ≡ none
      → (values : List Text)
      → All (HasCode amounts hash (IsNew amounts hash fresh now p batch next req) table) values
      → All (λ (g : GeneratedCode). IsRedeemable table g.code) (generated_codes values)
  unfolding generated_code
  new-IsRedeemable p batch next table valid [] all = tt
  new-IsRedeemable p batch next table valid (code ∷ values)
        ((c, found, (unused_now, kind, group, days, expiry)), all) =
      let fits : Fits amounts c = λ default_group.
        let (operation, fit) = valid-Fits amounts is_positive p default_group valid in
        (operation, rw (kind, group, days) fit) in
      (
        (c, found, (rw unused_now refl, expiry, fits)),
        new-IsRedeemable p batch next table valid values all,
      )

  abbrev Made : Option (Generated × Shop amounts) → Type 0
  Made none = Unit
  Made (some done) = AllRedeemable done

  insert_batch-AllRedeemable :
      (p : Product amounts) (shop : Shop amounts)
      → validate_product_for_generation amounts is_positive p ≡ none
      → Made (insert_batch amounts is_positive hash vault fresh now p req shop)
  unfolding insert_batch AfterLoop
  insert_batch-AllRedeemable p shop valid =
      let b = new_batch amounts is_positive hash vault fresh now p shop.next_batch req [] in
      let out =
        insert_codes amounts hash fresh now req.count 0 p shop.next_batch shop.next_code req
          shop.codes in
      elim (Option-cases (find (is_batch_taken b) shop.batches)) [
        | inr (taken, e) ↦ rw (e, insert_batch) tt
        | inl free ↦ elim (Option-cases out) [
          | inl e ↦ rw (free, e, insert_batch) tt
          | inr ((values, table), e) ↦
              elim (Option-cases
                (encrypt_generated_codes amounts is_positive hash vault fresh now values)) [
                  | inl e' ↦ rw (free, e, e', insert_batch) tt
                  | inr (encrypted, e') ↦
                      let (all, kept) =
                        subst
                          (AfterLoop amounts hash fresh now p shop.next_batch shop.next_code req
                            shop.codes)
                          e
                          (inserted-AfterLoop amounts hash fresh now p shop.next_batch
                            shop.next_code req req.count 0 shop.codes) in
                      rw (free, e, e', insert_batch)
                        (new-IsRedeemable p shop.next_batch shop.next_code table valid values all)
                ]
        ]
      ]

  -- When no batch has the order reference yet, every code that a generation answers can be redeemed:
  -- it is found by its hash, is unused, has the expiry that was asked for, and a redemption of it is
  -- not refused for the configuration of its product, whatever the default group is.
  pub generate-AllRedeemable :
      (shop : Shop amounts)
      → find_batch req.source req.order_ref shop.batches ≡ none
      → AllRedeemable (generate_redeem_codes amounts is_positive hash vault fresh now req shop)
  unfolding generate_redeem_codes generate_for
  generate-AllRedeemable shop first =
      elim (Option-cases
        (find (is_product amounts is_positive hash vault fresh now req.product_id) shop.products)) [
          | inl e ↦ rw (first, e, generate_redeem_codes) tt
          | inr (p, e) ↦
              elim (Option-cases (validate_product_for_generation amounts is_positive p)) [
                | inr (bad, e') ↦ rw (first, e, e', generate_redeem_codes, generate_for) tt
                | inl valid ↦
                    let made = insert_batch-AllRedeemable p shop valid in
                    elim (Option-cases
                      (insert_batch amounts is_positive hash vault fresh now p req shop)) [
                        | inl e' ↦ rw (first, e, valid, e', generate_redeem_codes, generate_for) tt
                        | inr (done, e') ↦
                            rw (first, e, valid, e', generate_redeem_codes, generate_for)
                              (subst Made e' made)
                      ]
              ]
        ]
