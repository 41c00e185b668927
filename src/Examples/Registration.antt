-- ===== src/Examples/Registration.antt =====
-- The theorems on the registration of providers, at a registry that is a table of rows.
use filecoin_porep_market_to.Prelude.{
  ℕ, ◌≡◌, ◌⊎◌, refl, true, false, some, List, [], ◌∷◌, arith, if◌then◌else◌, ◌==◌, All,
}
use filecoin_porep_market_to.Chain.{Chain, ProviderInput, ProviderView}
use filecoin_porep_market_to.Session.{
  Tx, provider_registration, payee_change, space_change, Node, Session, sends,
}
use filecoin_porep_market_to.Registry.{
  view_from_web3, differs, register_or_update_sp, register_or_update_sps, update_sp_params,
  update_parameter, get_provider_view,
}
use filecoin_porep_market_to.Transactions.{confirm, sign_and_send_tx}
use filecoin_porep_market_to.Registry.Views.{first_view, is_there, Complete}
use filecoin_porep_market_to.Registry.Sends.{Updates, register_or_update_sp-Sends}
use filecoin_porep_market_to.Examples.{half_adopted}

abbrev Rows : Type 0
Rows = ℕ → ProviderView

abbrev write : ℕ → ProviderView → Rows → Rows
write at row rows id = if id == at then row else rows id

abbrev apply : Tx → Rows → Rows
apply (provider_registration p) rows = write p.provider_id (first_view p) rows
apply (payee_change at payee) rows = write at (record (rows at) { payee_address = payee }) rows
apply (space_change at space) rows = write at (record (rows at) { available_bytes = space }) rows
apply tx rows = rows

abbrev chain_of : Rows → Chain
chain_of rows = record half_adopted {
  provider_row = rows;
  is_provider_registered = λ id. is_there (view_from_web3 (rows id) id);
}

abbrev registry_node : Node Rows
registry_node = record {
  chain = chain_of;
  confirm = λ rows. (true, rows);
  pending = λ rows. false;
  build = λ tx rows. true;
  sign = λ tx rows. true;
  call = λ tx rows. true;
  send = λ tx rows. ((7, true), apply tx rows);
  sleep = λ rows. rows;
  dry_run = false;
  client = 500;
}

-- Provider 1 is registered with another payee, provider 2 is new.
abbrev one_registered : Rows
one_registered id = record {
  provider_id = if id == 1 then 1 else 0;
  organization_address = if id == 1 then 70 else 0;
  payee_address = 71;
  paused = true;
  blocked = false;
  available_bytes = 1000;
  committed_bytes = 300;
  pending_bytes = 20;
}

abbrev first_provider : ProviderInput
first_provider = record {
  provider_id = 1;
  organization_address = 70;
  available_bytes = 1000;
  payee_address = 72;
}

abbrev second_provider : ProviderInput
second_provider = record {
  provider_id = 2;
  organization_address = 80;
  available_bytes = 5000;
  payee_address = 81;
}

abbrev both_providers : List ProviderInput
both_providers = first_provider ∷ second_provider ∷ []

abbrev before : Session Rows
before = record { world = one_registered; log = []; batch_confirmed = false }

abbrev both_complete : All Complete both_providers
both_complete = ((omega arith, omega arith), ((omega arith, omega arith), tt))

-- The run sends the change of the payee and the registration.
both_sent :
    sends (register_or_update_sps registry_node both_providers before).1.log
    ≡ provider_registration second_provider ∷ payee_change 1 72 ∷ []
unfolding register_or_update_sps register_or_update_sp update_sp_params update_parameter
    get_provider_view view_from_web3 differs confirm sign_and_send_tx
both_sent = refl

register_or_update_sp-Sends_example :
    let s' = (register_or_update_sp registry_node first_provider before).1 in
    (sends s'.log ≡ [])
    ⊎ (((chain_of one_registered).is_provider_registered 1 ≡ false)
        × (true ≡ true)
        × (true ≡ true)
        × (sends s'.log ≡ provider_registration first_provider ∷ []))
    ⊎ ((view : ProviderView) × ((chain_of one_registered).is_provider_registered 1 ≡ true)
        × (view_from_web3 (one_registered 1) 1 ≡ some view)
        × (differs first_provider view ≡ true)
        × (true ≡ true)
        × Updates registry_node first_provider view before s')
register_or_update_sp-Sends_example =
    register_or_update_sp-Sends registry_node first_provider before
