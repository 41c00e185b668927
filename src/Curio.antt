-- ===== src/Curio.antt =====
-- cli/services/curio_market_client.py: the choice of an endpoint, its checks, the status of a deal and the submission of one. The signed
-- HTTP requests are functions of a world; a text is the list of its ASCII codes. SHA-256 is a parameter.
use filecoin_porep_market_to.Prelude.{
  ℕ, ◌==◌, Bool, false, ◌&&◌, ◌||◌, Option, none, some, List, [], ◌∷◌, Result, ok, err,
  if◌then◌else◌, map, take, get_elem?,
}
use filecoin_porep_market_to.Bytes.{from_bytes}
use filecoin_porep_market_to.Base32.{digits32, lower}
use filecoin_porep_market_to.Confirm.{Text, text_in}

-- A step on a state, that may raise.
abbrev pub Step : Type 0 → Type 0 → Type 0 → Type 0
Step S E A = S → Result E A × S

infixl 5 ◌>>=◌ ◌>>◌
abbrev pub ◌>>=◌ : {S E A B : Type 0} → Step S E A → (A → Step S E B) → Step S E B
◌>>=◌ m f s = let (r, s') = m s in elim r [ ok a ↦ f a s' | err e ↦ (err e, s') ]

abbrev pub ◌>>◌ : {S E B : Type 0} → Step S E (Unit {0}) → Step S E B → Step S E B
m >> k = m >>= λ _. k

abbrev pub pure : {S E A : Type 0} → A → Step S E A
pure a s = (ok a, s)

abbrev pub raise_when : {S E : Type 0} → Bool → E → Step S E (Unit {0})
raise_when b e s = (if b then err e else ok tt, s)

-- `CurioMarketError` with its status code, the `ValueError` of `submit_ddo`, and the `ClickException` when no endpoint is left.
pub data CurioError : Type 0 where
  market_error : Option ℕ → CurioError
  invalid_argument : CurioError
  no_endpoint : CurioError

-- A field of a JSON object that should be a list of texts.
pub data Item : Type 0 where
  text : Text → Item
  not_text : Item

pub data Field : Type 0 where
  list_of : List Item → Field
  no_list : Field

-- What `_json(_request(...))` returns, or the status code of its `CurioMarketError`.
pub data Reply (A : Type 0) : Type 0 where
  reply : A → Reply A
  failed : Option ℕ → Reply A

-- A deal that is posted, with the fields that differ from one to another. `source_urls` is empty for offline data.
pub record Ddo : Type 0 where
  pub identifier : Text
  pub provider : ℕ
  pub piece_cid_v2 : Text
  pub duration : ℕ
  pub market : Option (ℕ × ℕ)
  pub start_epoch : Option ℕ
  pub notification : Option (ℕ × List ℕ)
  pub indexing : Bool
  pub announce_payload : Bool
  pub source_urls : List Text

-- The endpoints: the lists that they publish, the status of a deal, by its `ddo_v1.status`, which is empty when it is missing, and the post of a deal.
pub record Market (W : Type 0) : Type 0 where
  pub products : Text → W → Reply Field
  pub sources : Text → W → Reply Field
  pub contracts : Text → W → Reply Field
  pub status : Text → Text → W → Reply Text
  pub post : Text → Ddo → W → Reply (Unit {0}) × W

unfoldable pub all_texts : List Item → Option (List Text)
all_texts [] = some []
all_texts (not_text ∷ items) = none
all_texts (text t ∷ items) =
    let rest = all_texts items in elim rest [ none ↦ none | some texts ↦ some (t ∷ texts) ]

-- `get_products`, `get_sources` and `get_contracts`, of the field that they read.
unfoldable pub get_list : Reply Field → Result CurioError (List Text)
get_list (failed code) = err (market_error code)
get_list (reply no_list) = err (market_error none)
get_list (reply (list_of items)) = elim (all_texts items) [
  | none ↦ err (market_error none)
  | some texts ↦ ok texts
]

-- `ddo_v1`
abbrev pub ddo_v1 : Text
ddo_v1 = 100 ∷ 100 ∷ 111 ∷ 95 ∷ 118 ∷ 49 ∷ []

-- `retrieval_v1`
abbrev pub retrieval_v1 : Text
retrieval_v1 = 114 ∷ 101 ∷ 116 ∷ 114 ∷ 105 ∷ 101 ∷ 118 ∷ 97 ∷ 108 ∷ 95 ∷ 118 ∷ 49 ∷ []

-- The check that ends in the error of an endpoint.
unfoldable pub require : Bool → Result CurioError (Unit {0})
require b = if b then ok tt else err (market_error none)

-- The checks of the arguments of `submit_ddo`; that the two parts of the market and of the notification come together is in their types.
unfoldable pub invalid_ddo : Ddo → Bool
invalid_ddo ddo =
    (ddo.duration == 0)
    || (elim ddo.market [ none ↦ false | some (address, deal_id) ↦ deal_id == 0 ])

module _ {W : Type 0} (market : Market W) where
  -- The last check of `preflight`, with the contract's address as a text.
  unfoldable pub supports_contract : Text → Option Text → W → Result CurioError (Unit {0})
  supports_contract url none w = ok tt
  supports_contract url (some address) w = elim (get_list (market.contracts url w)) [
    | err e ↦ err e
    | ok contracts ↦
        require (text_in (map lower address) (map (λ contract. map lower contract) contracts))
  ]

  unfoldable pub preflight : Text → Option Text → Text → W → Result CurioError (Unit {0})
  preflight url market_address data_source w = elim (get_list (market.products url w)) [
    | err e ↦ err e
    | ok products ↦ elim (get_list (market.sources url w)) [
      | err e ↦ err e
      | ok sources ↦
          elim (require (
            text_in ddo_v1 products
            && (text_in retrieval_v1 products && text_in data_source sources))) [
              | err e ↦ err e
              | ok _ ↦ supports_contract url market_address w
            ]
    ]
  ]

  -- `find_curio_market_endpoint`: the first endpoint that passes.
  unfoldable pub find_endpoint : List Text → Option Text → Bool → Text → W → Result CurioError Text
  find_endpoint [] market_address skip_preflight data_source w = err no_endpoint
  find_endpoint (url ∷ urls) market_address skip_preflight data_source w =
      let rest = find_endpoint urls market_address skip_preflight data_source w in
      if skip_preflight
      then ok url
      else elim (preflight url market_address data_source w) [ ok _ ↦ ok url | err e ↦ rest ]

  -- `get_deal_status_or_none`
  unfoldable pub get_deal_status_or_none : Text → Text → W → Result CurioError (Option Text)
  get_deal_status_or_none url identifier w = elim (market.status url identifier w) [
    | reply status ↦ ok (some status)
    | failed none ↦ err (market_error none)
    | failed (some code) ↦
        if (code == 401) || (code == 404) then ok none else err (market_error (some code))
  ]

  unfoldable pub post_ddo : Text → Ddo → W → Result CurioError (Unit {0}) × W
  post_ddo url ddo w =
      if invalid_ddo ddo
      then (err invalid_argument, w)
      else (let (answer, w') = market.post url ddo w in
          elim answer [ reply _ ↦ (ok tt, w') | failed code ↦ (err (market_error code), w') ])

-- The alphabet of a ULID.
abbrev pub ulid_alphabet : List ℕ
ulid_alphabet =
    48 ∷ 49 ∷ 50 ∷ 51 ∷ 52 ∷ 53 ∷ 54 ∷ 55 ∷ 56 ∷ 57 ∷ 65 ∷ 66 ∷ 67 ∷ 68 ∷ 69 ∷ 70 ∷ 71 ∷ 72 ∷ 74
    ∷ 75 ∷ 77 ∷ 78 ∷ 80 ∷ 81 ∷ 82 ∷ 83 ∷ 84 ∷ 86 ∷ 87 ∷ 88 ∷ 89 ∷ 90 ∷ []

unfoldable pub ulid_letter : ℕ → ℕ
ulid_letter digit = elim (get_elem? ulid_alphabet digit) [ none ↦ 0 | some c ↦ c ]

-- `deterministic_ulid`, over SHA-256: the loop takes the digits from the lowest, and its result is reversed.
unfoldable pub deterministic_ulid : (List ℕ → List ℕ) → List ℕ → Text
deterministic_ulid sha256 seed =
    map ulid_letter (digits32 26 (from_bytes 0 (take 10 (sha256 seed))))
