-- ===== src/Registry/Sends.antt =====
-- What the registration of a provider may send.
use filecoin_porep_market_to.Prelude.{
  ◌≡◌, ◌≢◌, ◌⊎◌, inl, inr, refl, Bool, true, false, not, some, ◌∷◌, arith, ◌==◌, Option-cases,
  Bool-cases,
}
use filecoin_porep_market_to.Chain.{ProviderInput, ProviderView}
use filecoin_porep_market_to.Session.{
  Tx, provider_registration, payee_change, space_change, Node, Session, sends, ◌>>◌,
}
use filecoin_porep_market_to.Transactions.{confirm}
use filecoin_porep_market_to.Transactions.Consent.{sign_and_send_tx-sends}
use filecoin_porep_market_to.Registry.{
  view_from_web3, differs, get_provider_view, update_parameter, update_sp_params,
  register_or_update_sp,
}

module _ {W : Type 0} (node : Node W) where
  confirm-sends : (s : Session W) → sends (confirm node s).1.log ≡ sends s.log
  unfolding confirm
  confirm-sends s = refl

  -- At most this transaction, and only if the flag is set.
  abbrev AtMost : Bool → Tx → Session W → Session W → Type 0
  AtMost different tx s s' =
      (sends s'.log ≡ sends s.log) ⊎ ((different ≡ true) × (sends s'.log ≡ tx ∷ sends s.log))

  update_parameter-AtMost :
      (different : Bool) (tx : Tx) (s : Session W)
      → AtMost different tx s (update_parameter node different tx s).1
  unfolding update_parameter
  update_parameter-AtMost different tx s =
      ground (arith, confirm-sends s, sign_and_send_tx-sends node tx (confirm node s).1)

  -- What the update of a provider sends, the last first.
  abbrev pub Updates : ProviderInput → ProviderView → Session W → Session W → Type 0
  Updates p view s s' =
      (sends s'.log ≡ sends s.log)
      ⊎ ((p.payee_address ≢ view.payee_address)
          × (sends s'.log ≡ payee_change p.provider_id p.payee_address ∷ sends s.log))
      ⊎ ((p.available_bytes ≢ view.available_bytes)
          × (sends s'.log ≡ space_change p.provider_id p.available_bytes ∷ sends s.log))
      ⊎ ((p.payee_address ≢ view.payee_address)
          × (p.available_bytes ≢ view.available_bytes)
          × (sends s'.log
              ≡ space_change p.provider_id p.available_bytes
                ∷ payee_change p.provider_id p.payee_address
                ∷ sends s.log))

  -- The two parameters one after the other.
  both_parameters :
      (d d' : Bool) (tx tx' : Tx) (s : Session W)
      → let s' = ((update_parameter node d tx >> update_parameter node d' tx') s).1 in
        (sends s'.log ≡ sends s.log)
        ⊎ ((d ≡ true) × (sends s'.log ≡ tx ∷ sends s.log))
        ⊎ ((d' ≡ true) × (sends s'.log ≡ tx' ∷ sends s.log))
        ⊎ ((d ≡ true) × (d' ≡ true) × (sends s'.log ≡ tx' ∷ tx ∷ sends s.log))
  both_parameters d d' tx tx' s = ground (
    arith,
    update_parameter-AtMost d tx s,
    update_parameter-AtMost d' tx' (update_parameter node d tx s).1,
  )

  update_sp_params-Updates :
      (p : ProviderInput) (view : ProviderView) (s : Session W)
      → Updates p view s (update_sp_params node p view s).1
  unfolding update_sp_params
  update_sp_params-Updates p view s =
      let d = not (p.payee_address == view.payee_address) in
      let d' = not (p.available_bytes == view.available_bytes) in
      let tx = payee_change p.provider_id p.payee_address in
      let tx' = space_change p.provider_id p.available_bytes in
      ground (
        arith,
        confirm-sends s,
        both_parameters d d' tx tx' s,
        both_parameters d d' tx tx' (confirm node s).1,
      )

module _ {W : Type 0} (node : Node W) (p : ProviderInput) (s : Session W) where
  new_run :
      (node.chain s.world).is_provider_registered p.provider_id ≡ false
      → let s' = (register_or_update_sp node p s).1 in
        (sends s'.log ≡ sends s.log)
        ⊎ (((node.confirm s.world).0 ≡ true)
            × ((node.confirm (node.confirm s.world).1).0 ≡ true)
            × (sends s'.log ≡ provider_registration p ∷ sends s.log))
  unfolding register_or_update_sp confirm
  new_run unknown = ground (
    arith,
    sign_and_send_tx-sends node (provider_registration p) (confirm node (confirm node s).1).1,
  )

  known_run :
      (node.chain s.world).is_provider_registered p.provider_id ≡ true
      → let s' = (register_or_update_sp node p s).1 in
        (sends s'.log ≡ sends s.log)
        ⊎ ((view : ProviderView) × (view_from_web3
                ((node.chain s.world).provider_row p.provider_id)
                p.provider_id
              ≡ some view)
            × (differs p view ≡ true)
            × ((node.confirm s.world).0 ≡ true)
            × (s' ≡ (update_sp_params node p view (confirm node s).1).1))
  unfolding register_or_update_sp get_provider_view confirm
  known_run known =
      elim (Option-cases
        (view_from_web3 ((node.chain s.world).provider_row p.provider_id) p.provider_id)) [
          | inl unknown ↦ inl (ground arith)
          | inr (view, here) ↦ elim (Bool-cases (differs p view)) [
            | inl different ↦ elim (Bool-cases (node.confirm s.world).0) [
              | inl agreed ↦ inr (view, here, different, agreed, ground arith)
              | inr refused ↦ inl (ground arith)
            ]
            | inr same ↦ inl (ground arith)
          ]
        ]

-- Whatever the node and the user answer, `register_or_update_sp` on one provider sends nothing or one of these. If the
-- provider is not registered, its registration with exactly the given parameters, after the user agreed twice. If it is registered
-- and its view differs, the change of the payee, of the space, or of both in this order, each only where the given value differs
-- from the registered one; nothing that it sends changes the organization of a registered provider.
pub register_or_update_sp-Sends :
    {W : Type 0} (node : Node W) (p : ProviderInput) (s : Session W)
    → let chain = node.chain s.world in
      let s' = (register_or_update_sp node p s).1 in
      (sends s'.log ≡ sends s.log)
      ⊎ ((chain.is_provider_registered p.provider_id ≡ false)
          × ((node.confirm s.world).0 ≡ true)
          × ((node.confirm (node.confirm s.world).1).0 ≡ true)
          × (sends s'.log ≡ provider_registration p ∷ sends s.log))
      ⊎ ((view : ProviderView) × (chain.is_provider_registered p.provider_id ≡ true)
          × (view_from_web3 (chain.provider_row p.provider_id) p.provider_id ≡ some view)
          × (differs p view ≡ true)
          × ((node.confirm s.world).0 ≡ true)
          × Updates node p view s s')
unfolding confirm
register_or_update_sp-Sends node p s =
    elim (Bool-cases ((node.chain s.world).is_provider_registered p.provider_id)) [
      | inl known ↦ elim (known_run node p s known) [
        | inl none_sent ↦ inl none_sent
        | inr (view, here, different, agreed, ran) ↦
            let updated = update_sp_params-Updates node p view (confirm node s).1 in
            inr (inr (view, known, here, different, agreed, rw (ran) updated))
      ]
      | inr unknown ↦ elim (new_run node p s unknown) [
        | inl none_sent ↦ inl none_sent
        | inr (agreed, sure, sent) ↦ inr (inl (unknown, agreed, sure, sent))
      ]
    ]
