-- ===== src/Registry/Views.antt =====
-- The abstract registry: a partial map from actor IDs to views, and the contract that keeps it.
use native.Mathlib.Decide.{ℕ_discrete}
use filecoin_porep_market_to.Prelude.{
  ℕ, ◌≡◌, ◌≢◌, refl, ◌∙◌, sym, Bool, true, false, Option, none, some, List, [], ◌∷◌, arith,
  if◌then◌else◌, ◌==◌,
}
use filecoin_porep_market_to.Chain.{ProviderInput, ProviderView}
use filecoin_porep_market_to.Session.{Tx, provider_registration, payee_change, space_change, Node}
use filecoin_porep_market_to.Registry.{view_from_web3, differs}

abbrev pub Views : Type 0
Views = ℕ → Option ProviderView

-- What the node reads for every provider.
abbrev pub views : {W : Type 0} → Node W → W → Views
views node w id = view_from_web3 ((node.chain w).provider_row id) id

-- A new registration.
abbrev pub first_view : ProviderInput → ProviderView
first_view p = record {
  provider_id = p.provider_id;
  organization_address = p.organization_address;
  payee_address = p.payee_address;
  paused = false;
  blocked = false;
  available_bytes = p.available_bytes;
  committed_bytes = 0;
  pending_bytes = 0;
}

-- The registered view with the given payee and space.
abbrev pub updated_view : ProviderInput → ProviderView → ProviderView
updated_view p view = record view {
  payee_address = p.payee_address;
  available_bytes = p.available_bytes;
}

abbrev pub is_there : Option ProviderView → Bool
is_there none = false
is_there (some v) = true

-- The view of one provider becomes another.
abbrev pub put : ℕ → ProviderView → Views → Views
put at view reg id = if id == at then some view else reg id

-- The addresses of a provider are there.
abbrev pub Complete : ProviderInput → Type 0
Complete p = (p.organization_address ≢ 0) × (p.payee_address ≢ 0)

-- The registry contract as its interface documents it, behind a node on which nothing fails and a user who agrees to everything:
-- `registerProviderFor`, `setPayee` and `updateAvailableSpace` succeed and change the view of the one provider.
pub record Serves {W : Type 0} (node : Node W) : Type 0 where
  pub live : node.dry_run ≡ false
  pub builds : (tx : Tx) (w : W) → node.build tx w ≡ true
  pub signs : (tx : Tx) (w : W) → node.sign tx w ≡ true
  pub agrees : (w : W) → (node.confirm w).0 ≡ true
  pub keeps : (w : W) (id : ℕ) → views node (node.confirm w).1 id ≡ views node w id
  pub registered :
      (w : W) (id : ℕ) → (node.chain w).is_provider_registered id ≡ is_there (views node w id)
  pub registering :
      (p : ProviderInput) (w : W)
      → Complete p
      → views node w p.provider_id ≡ none
      → ((node.send (provider_registration p) w).0.1 ≡ true)
        × ((id : ℕ)
            → views node (node.send (provider_registration p) w).1 id
              ≡ put p.provider_id (first_view p) (views node w) id)
  pub paying :
      (at payee : ℕ) (view : ProviderView) (w : W)
      → payee ≢ 0
      → views node w at ≡ some view
      → ((node.send (payee_change at payee) w).0.1 ≡ true)
        × ((id : ℕ)
            → views node (node.send (payee_change at payee) w).1 id
              ≡ put at (record view { payee_address = payee }) (views node w) id)
  pub resizing :
      (at space : ℕ) (view : ProviderView) (w : W)
      → views node w at ≡ some view
      → ((node.send (space_change at space) w).0.1 ≡ true)
        × ((id : ℕ)
            → views node (node.send (space_change at space) w).1 id
              ≡ put at (record view { available_bytes = space }) (views node w) id)

-- What registering or updating a provider means: a new provider is registered as given, and a registered one has the given payee and
-- space and keeps the rest, its organization too.
unfoldable pub upsert : ProviderInput → Views → Views
upsert p reg id =
    if id == p.provider_id
    then some (elim (reg id) [
      | none ↦ first_view p
      | some view ↦ record view {
        payee_address = p.payee_address;
        available_bytes = p.available_bytes;
      }
    ])
    else reg id

unfoldable pub upsert_all : List ProviderInput → Views → Views
upsert_all [] reg = reg
upsert_all (p ∷ providers) reg = upsert_all providers (upsert p reg)

upsert_cong :
    (p : ProviderInput) (reg reg' : Views) (id : ℕ)
    → reg id ≡ reg' id
    → upsert p reg id ≡ upsert p reg' id
unfolding upsert
upsert_cong p reg reg' id h = rw (h) refl

pub upsert_all_cong :
    (ps : List ProviderInput) (reg reg' : Views) (id : ℕ)
    → reg id ≡ reg' id
    → upsert_all ps reg id ≡ upsert_all ps reg' id
unfolding upsert_all
upsert_all_cong [] reg reg' id h = h
upsert_all_cong (p ∷ ps) reg reg' id h =
    upsert_all_cong ps (upsert p reg) (upsert p reg') id (upsert_cong p reg reg' id h)

pub put_cong :
    (at : ℕ) (view : ProviderView) (reg reg' : Views) (id : ℕ)
    → reg id ≡ reg' id
    → put at view reg id ≡ put at view reg' id
put_cong at view reg reg' id h = rw (h) refl

pub put_there : (at : ℕ) (view : ProviderView) (reg : Views) → put at view reg at ≡ some view
put_there at view reg = ground arith

pub put_same :
    (at : ℕ) (view : ProviderView) (reg : Views) (id : ℕ)
    → reg at ≡ some view
    → reg id ≡ put at view reg id
put_same at view reg id h = elim (ℕ_discrete id at) [
  | yes e ↦ rw (e) (h ∙ sym (put_there at view reg))
  | no other ↦ let e : (id == at) ≡ false = ground arith in rw (e) refl
]

pub put-put :
    (at : ℕ) (view view' : ProviderView) (reg : Views) (id : ℕ)
    → put at view' (put at view reg) id ≡ put at view' reg id
put-put at view view' reg id = ground arith

-- An update writes the two parameters into what was there.
pub upsert-put :
    (p : ProviderInput) (reg : Views) (view' : ProviderView) (id : ℕ)
    → upsert p reg p.provider_id ≡ some view'
    → put p.provider_id view' reg id ≡ upsert p reg id
unfolding upsert
upsert-put p reg view' id h = elim (ℕ_discrete id p.provider_id) [
  | yes e ↦ rw (e) (put_there p.provider_id view' reg ∙ sym h)
  | no other ↦ let e : (id == p.provider_id) ≡ false = ground arith in rw (e) refl
]

pub upsert-new :
    (p : ProviderInput) (reg : Views)
    → reg p.provider_id ≡ none
    → upsert p reg p.provider_id ≡ some (first_view p)
unfolding upsert
upsert-new p reg h = ground (arith, h)

pub upsert-there :
    (p : ProviderInput) (reg : Views) (view : ProviderView)
    → reg p.provider_id ≡ some view
    → upsert p reg p.provider_id
      ≡ some (record view { payee_address = p.payee_address; available_bytes = p.available_bytes })
unfolding upsert
upsert-there p reg view h = ground (arith, h)

-- With the parameters as they were there is nothing to write.
pub upsert-same :
    (p : ProviderInput) (reg : Views) (view : ProviderView) (id : ℕ)
    → reg p.provider_id ≡ some view
    → differs p view ≡ false
    → reg id ≡ upsert p reg id
unfolding differs
upsert-same p reg view id h same =
    let paid : p.payee_address ≡ view.payee_address = ground arith in
    let sized : p.available_bytes ≡ view.available_bytes = ground arith in
    put_same p.provider_id view reg id h
    ∙ upsert-put p reg view id (upsert-there p reg view h ∙ rw (paid, sized) refl)
