-- ===== src/Registry/Steps.antt =====
-- The steps of a registration on a node that serves the registry: what each leaves of the views.

use filecoin_porep_market_to.Prelude.{
  ℕ, ◌≡◌, ◌≢◌, refl, ◌∙◌, ap, sym, Bool, true, false, not, some, ◌∷◌, ok, arith, if◌then◌else◌,
  ◌==◌,
}
use filecoin_porep_market_to.Chain.{ProviderInput, ProviderView}
use filecoin_porep_market_to.Session.{
  Tx, answered, broadcast, Exec, pure, payee_change, space_change, Node, Session,
}
use filecoin_porep_market_to.Transactions.{confirm, sign_and_send_tx}
use filecoin_porep_market_to.Registry.{update_parameter, update_sp_params}
use filecoin_porep_market_to.Registry.Views.{
  Views, views, put, Serves, put_cong, put_there, put-put, put_same,
}

module _ {W : Type 0} (node : Node W) (serves : Serves node) where
  -- A confirmed transaction that succeeds.
  pub sign_and_send_tx-lands :
      (tx : Tx) (s : Session W)
      → s.batch_confirmed ≡ false
      → (node.send tx (node.confirm s.world).1).0.1 ≡ true
      → (hash : ℕ) × (s' : Session W) × (sign_and_send_tx node tx s ≡ (ok hash, s'))
        × (s'.batch_confirmed ≡ false)
        × (s'.world ≡ (node.send tx (node.confirm s.world).1).1)
  unfolding sign_and_send_tx confirm
  sign_and_send_tx-lands tx s alone lands =
      let live = serves.live in
      let builds = serves.builds tx s.world in
      let signs = serves.signs tx (node.confirm s.world).1 in
      let agrees = serves.agrees s.world in
      (
        (node.send tx (node.confirm s.world).1).0.0,
        record {
          world = (node.send tx (node.confirm s.world).1).1;
          log = broadcast tx ∷ answered true ∷ s.log;
          batch_confirmed = false;
        },
        ground arith,
        refl,
        refl,
      )

  -- The run succeeds outside any batch and leaves these views.
  abbrev pub Ends : Exec W (Unit {0}) → Session W → Views → Type 0
  Ends m s reg =
      (s' : Session W) × (m s ≡ (ok tt, s'))
      × (s'.batch_confirmed ≡ false)
      × ((id : ℕ) → views node s'.world id ≡ reg id)

  -- Answering a prompt with yes.
  pub confirm-agrees :
      (s : Session W)
      → (s' : Session W) × (confirm node s ≡ (ok true, s'))
        × (s'.batch_confirmed ≡ s.batch_confirmed)
        × ((id : ℕ) → views node s'.world id ≡ views node s.world id)
  unfolding confirm
  confirm-agrees s =
      let agrees = serves.agrees s.world in
      (
        record s { world = (node.confirm s.world).1; log = answered true ∷ s.log },
        ground arith,
        refl,
        serves.keeps s.world,
      )

  -- A prompt, the final confirmation and the transaction with its effect.
  changed-Ends :
      (tx : Tx) (at : ℕ) (view view' : ProviderView) (s : Session W)
      → s.batch_confirmed ≡ false
      → views node s.world at ≡ some view
      → ((w : W)
          → views node w at ≡ some view
          → ((node.send tx w).0.1 ≡ true)
            × ((id : ℕ) → views node (node.send tx w).1 id ≡ put at view' (views node w) id))
      → Ends (update_parameter node true tx) s (put at view' (views node s.world))
  unfolding update_parameter
  changed-Ends tx at view view' s alone here effect =
      let (s1, asked, same, kept) = confirm-agrees s in
      let w = (node.confirm s1.world).1 in
      let (lands, after) = effect w (serves.keeps s1.world at ∙ kept at ∙ here) in
      let (hash, s2, sent_tx, alone2, arrived) =
        sign_and_send_tx-lands tx s1 (same ∙ alone) lands in
      (
        s2,
        ground (arith, asked, sent_tx),
        alone2,
        λ id. rw (arrived) (
            after id
            ∙ put_cong at view' (views node w) (views node s.world) id
                (serves.keeps s1.world id ∙ kept id)),
      )

  -- One parameter, that differs or not.
  update_parameter-Ends :
      (different : Bool) (tx : Tx) (at : ℕ) (view view' : ProviderView) (s : Session W)
      → s.batch_confirmed ≡ false
      → views node s.world at ≡ some view
      → (different ≡ false → view' ≡ view)
      → ((w : W)
          → views node w at ≡ some view
          → ((node.send tx w).0.1 ≡ true)
            × ((id : ℕ) → views node (node.send tx w).1 id ≡ put at view' (views node w) id))
      → Ends (update_parameter node different tx) s (put at view' (views node s.world))
  unfolding update_parameter
  update_parameter-Ends true tx at view view' s alone here same effect =
      changed-Ends tx at view view' s alone here effect
  update_parameter-Ends false tx at view view' s alone here same effect = (
    s,
    refl,
    alone,
    λ id. put_same at view' (views node s.world) id (here ∙ ap some (sym (same refl))),
  )

  goes_on :
      (different : Bool) (s : Session W)
      → s.batch_confirmed ≡ false
      → (s' : Session W) × ((if different then confirm node else pure true) s ≡ (ok true, s'))
        × (s'.batch_confirmed ≡ false)
        × ((id : ℕ) → views node s'.world id ≡ views node s.world id)
  goes_on true s alone =
      let (s', asked, same, kept) = confirm-agrees s in (s', asked, same ∙ alone, kept)
  goes_on false s alone = (s, refl, alone, λ id. refl)

  pub update_sp_params-Ends :
      (p : ProviderInput) (view : ProviderView) (s : Session W)
      → s.batch_confirmed ≡ false
      → p.payee_address ≢ 0
      → views node s.world p.provider_id ≡ some view
      → Ends (update_sp_params node p view) s (
          put p.provider_id
            (record view { payee_address = p.payee_address; available_bytes = p.available_bytes })
            (views node s.world))
  unfolding update_sp_params
  update_sp_params-Ends p view s alone paid_to here =
      let at = p.provider_id in
      let paid : ProviderView = record view { payee_address = p.payee_address } in
      let sized : ProviderView = record paid { available_bytes = p.available_bytes } in
      let (s1, asked, alone1, kept) =
        goes_on (not (p.organization_address == view.organization_address)) s alone in
      let here1 : views node s1.world at ≡ some view = kept at ∙ here in
      let (s2, ran, alone2, after) =
        update_parameter-Ends (not (p.payee_address == view.payee_address))
          (payee_change at p.payee_address) at view paid s1 alone1 here1
          (λ same. let e : p.payee_address ≡ view.payee_address = ground arith in rw (e) refl)
          (λ w at_w. serves.paying at p.payee_address view w paid_to at_w) in
      let here2 : views node s2.world at ≡ some paid =
        after at ∙ put_there at paid (views node s1.world) in
      let (s3, ran3, alone3, after3) =
        update_parameter-Ends (not (p.available_bytes == view.available_bytes))
          (space_change at p.available_bytes) at paid sized s2 alone2 here2
          (λ same. let e : p.available_bytes ≡ view.available_bytes = ground arith in rw (e) refl)
          (λ w at_w. serves.resizing at p.available_bytes paid w at_w) in
      (
        s3,
        ground (arith, asked, ran, ran3),
        alone3,
        λ id.
            after3 id
            ∙ (put_cong at sized (views node s2.world) (put at paid (views node s1.world)) id
                  (after id)
                ∙ (put-put at paid sized (views node s1.world) id
                    ∙ put_cong at sized (views node s1.world) (views node s.world) id (kept id))),
      )
