-- ===== src/SubmitDdo/Posts.antt =====
-- What `submit_ddo` posts.

use filecoin_porep_market_to.Prelude.{
  ℕ, ◌≡◌, ◌≢◌, ◌⊎◌, inl, inr, Bool, true, false, not, ◌||◌, Option, some, List, [], ◌∷◌, map,
  Result, ok, err, arith, nonempty, Bool-cases, Option-cases, Result-cases, if◌then◌else◌,
}
use filecoin_porep_market_to.Prelude.Int.{ℤ, pos, negsuc}
use filecoin_porep_market_to.Chain.{DealState, EvidenceType}
use filecoin_porep_market_to.PieceSize.{padded_piece_size_for_payload}
use filecoin_porep_market_to.PieceSet.{
  PieceSetRow, PieceSet, piece_set, bytes_eq, commitment, notification_payload,
}
use filecoin_porep_market_to.Cid.{piece_cid_v1_to_v2}
use filecoin_porep_market_to.Confirm.{Text}
use filecoin_porep_market_to.Curio.{Market}
use filecoin_porep_market_to.SubmitDdo.{
  ManifestPiece, DdoDeal, DdoError, Request, Tools, Planned, Submission, codes, validate_deal,
  find_piece, plan_piece, plan_pieces, checked_set, make_plan, submit_pieces, confirm_submission,
  choose_endpoint, submit_ddo,
}
use filecoin_porep_market_to.SubmitDdo.Loop.{Submits, submit_pieces-Submits}

-- The rows that the provider has not accepted.
abbrev pub open_rows : DdoDeal → List PieceSetRow → List PieceSetRow
open_rows view [] = []
open_rows view (row ∷ rows) =
    if view.accepted row.index then open_rows view rows else row ∷ open_rows view rows

-- An entry of the plan for a row: the V2 CID of a size that the row's padded size holds, the identifier of this CID, and the row's
-- proof in the set.
abbrev pub IsPlannedFor : Tools → DdoDeal → PieceSet → Planned → PieceSetRow → Type 0
IsPlannedFor tools view set planned row =
    (planned.row ≡ row)
    × (size : ℕ) × (padded_piece_size_for_payload size ≡ ok row.padded_size)
    × (piece_cid_v1_to_v2 (codes row.piece_cid) size ≡ ok planned.piece_cid_v2)
    × (notification_payload tools.codec set view.deal.deal_id row.index ≡ some planned.payload)

-- A plan has an entry for each of these rows, in their order.
abbrev pub Plans : Tools → DdoDeal → PieceSet → List Planned → List PieceSetRow → Type 0
Plans tools view set [] [] = Unit {0}
Plans tools view set [] (row ∷ rows) = ⊥
Plans tools view set (planned ∷ plan) [] = ⊥
Plans tools view set (planned ∷ plan) (row ∷ rows) =
    IsPlannedFor tools view set planned row × Plans tools view set plan rows

module _ (tools : Tools) (view : DdoDeal) (set : PieceSet) (source_url : Option Text) where
  plan_piece-IsPlannedFor :
      (row : PieceSetRow) (file_size : ℤ) (planned : Planned)
      → plan_piece tools view set source_url row file_size ≡ ok planned
      → IsPlannedFor tools view set planned row
  unfolding plan_piece
  plan_piece-IsPlannedFor row (negsuc n) planned h = cc
  plan_piece-IsPlannedFor row (pos size) planned h =
      elim (Result-cases (padded_piece_size_for_payload size)) [
        | inr (e, refused) ↦ absurd (ground (arith, h, refused))
        | inl (implied, sized) ↦
            elim (Result-cases (piece_cid_v1_to_v2 (codes row.piece_cid) size)) [
              | inr (e, refused) ↦ absurd (ground (arith, h, sized, refused))
              | inl (cid_v2, converted) ↦
                  elim (Option-cases
                    (notification_payload tools.codec set view.deal.deal_id row.index)) [
                      | inl unproved ↦ absurd (ground (arith, h, sized, converted, unproved))
                      | inr (payload, proved) ↦ (
                        ground (arith, h, sized, converted, proved),
                        size,
                        ground (arith, h, sized),
                        ground (arith, h, sized, converted, proved),
                        ground (arith, h, sized, converted, proved),
                      )
                    ]
            ]
      ]

  plan_pieces-Plans :
      (manifest : List ManifestPiece) (rows : List PieceSetRow) (plan : List Planned)
      → plan_pieces tools view set source_url manifest rows ≡ ok plan
      → Plans tools view set plan (open_rows view rows)
  unfolding plan_pieces
  plan_pieces-Plans manifest [] [] h = tt
  plan_pieces-Plans manifest [] (p ∷ plan) h = absurd (ground (arith, h))
  plan_pieces-Plans manifest (row ∷ rows) plan h = elim (Bool-cases (view.accepted row.index)) [
    | inl there ↦ rw (there) (plan_pieces-Plans manifest rows plan (ground (arith, h, there)))
    | inr waits ↦ elim (Option-cases (find_piece row.piece_cid row.padded_size manifest)) [
      | inl missing ↦ absurd (ground (arith, h, waits, missing))
      | inr (piece, here) ↦
          elim (Result-cases (plan_piece tools view set source_url row piece.file_size)) [
            | inr (e, refused) ↦ absurd (ground (arith, h, waits, here, refused))
            | inl (planned, one) ↦
                elim (Result-cases (plan_pieces tools view set source_url manifest rows)) [
                  | inr (e, refused) ↦ absurd (ground (arith, h, waits, here, one, refused))
                  | inl (rest, more) ↦
                      let e : plan ≡ planned ∷ rest = ground (arith, h, waits, here, one, more) in
                      rw (waits, e)
                        (
                          plan_piece-IsPlannedFor row piece.file_size planned one,
                          plan_pieces-Plans manifest rows rest more,
                        )
                ]
          ]
    ]
  ]

-- The checks of the deal.
abbrev pub IsSubmittable : ℕ → DdoDeal → Type 0
IsSubmittable client view =
    (view.deal.client_address ≡ client)
    × (view.deal.state ≡ DealState.accepted)
    × (view.deal.rail_id ≢ 0)
    × (view.deal.validator_address ≢ 0)
    × (view.operator_approved ≡ true)
    × (view.evidence_type ≡ EvidenceType.sector_placement)

validate_deal-IsSubmittable :
    (client : ℕ) (view : DdoDeal) → validate_deal client view ≡ ok tt → IsSubmittable client view
unfolding validate_deal
validate_deal-IsSubmittable client view h = ground arith

-- The set is that of the manifest, and agrees with the deal.
abbrev pub Agrees : Tools → DdoDeal → Request → PieceSet → Type 0
Agrees tools view request set =
    (manifest : List ManifestPiece) × (request.manifest ≡ some manifest)
    × (piece_set tools.codec (
          map (λ piece. record { piece_cid = piece.piece_cid; piece_size = piece.piece_size })
            manifest)
        ≡ ok set)
    × (hash : List ℕ) × (commitment tools.codec set ≡ some hash)
    × (bytes_eq hash view.manifest_hash ≡ true)
    × (set.size_bytes ≡ view.requested_size_bytes)

module _ (tools : Tools) (view : DdoDeal) (request : Request) where
  checked_set-Agrees :
      (manifest : List ManifestPiece) (set : PieceSet)
      → request.manifest ≡ some manifest
      → checked_set tools view manifest ≡ ok set
      → Agrees tools view request set
  unfolding checked_set
  checked_set-Agrees manifest set there h =
      elim (Result-cases (
        piece_set tools.codec (
          map (λ piece. record { piece_cid = piece.piece_cid; piece_size = piece.piece_size })
            manifest))) [
              | inr (e, refused) ↦ absurd (ground (arith, h, refused))
              | inl (built, made) ↦ elim (Option-cases (commitment tools.codec built)) [
                | inl bare ↦ absurd (ground (arith, h, made, bare))
                | inr (hash, hashed) ↦
                    let same : built ≡ set = ground (arith, h, made, hashed) in
                    (
                      manifest,
                      there,
                      rw (← same) made,
                      hash,
                      rw (← same) hashed,
                      ground (arith, h, made, hashed),
                      rw (← same) (ground (arith, h, made, hashed)),
                    )
              ]
            ]

  make_plan-Plans :
      (plan : List Planned)
      → make_plan tools view request ≡ ok plan
      → IsSubmittable request.client view
        × (set : PieceSet) × Agrees tools view request set
        × Plans tools view set plan (open_rows view set.rows)
  unfolding make_plan
  make_plan-Plans plan h = elim (Result-cases (validate_deal request.client view)) [
    | inr (e, refused) ↦ absurd (ground (arith, h, refused))
    | inl (u, valid) ↦ elim (Option-cases request.manifest) [
      | inl missing ↦ absurd (ground (arith, h, valid, missing))
      | inr (manifest, there) ↦ elim (Result-cases (checked_set tools view manifest)) [
        | inr (e, refused) ↦ absurd (ground (arith, h, valid, there, refused))
        | inl (set, checked) ↦ (
          validate_deal-IsSubmittable request.client view valid,
          set,
          checked_set-Agrees manifest set there checked,
          plan_pieces-Plans tools view set request.source_url manifest set.rows plan
              (ground (arith, h, valid, there, checked)),
        )
      ]
    ]
  ]

-- What stands behind the posts of a run that posts.
abbrev pub IsBacked :
    {W : Type 0}
    → Market W
    → (W → Bool × W)
    → DdoDeal
    → Tools
    → Request
    → Submission W
    → Result DdoError (ℕ × ℕ) × Submission W
    → Type 0
IsBacked market confirm view tools request s ran =
    IsSubmittable request.client view
    × (set : PieceSet) × Agrees tools view request set
    × (plan : List Planned) × Plans tools view set plan (open_rows view set.rows)
    × (request.print_only ≡ false)
    × (request.dry_run ≡ false)
    × ((confirm s.world).0 ≡ true)
    × (url : Text) × Submits market confirm view url plan s ran

module _ {W : Type 0} (market : Market W) (confirm : W → Bool × W) (view : DdoDeal) (tools : Tools)
    (request : Request) (s : Submission W) where
  choose_endpoint-reads :
      (r : Result DdoError Text)
      → (choose_endpoint market confirm view request s).0 ≡ r
      → choose_endpoint market confirm view request s ≡ (r, s)
  unfolding choose_endpoint
  choose_endpoint-reads r h = ground arith

  -- How a run with a plan goes on.
  submitting :
      (plan : List Planned)
      → make_plan tools view request ≡ ok plan
      → ((submit_ddo market confirm view tools request s).1.posts ≡ s.posts)
        ⊎ ((request.print_only ≡ false)
            × (request.dry_run ≡ false)
            × ((confirm s.world).0 ≡ true)
            × (url : Text) × (submit_ddo market confirm view tools request s
                ≡ submit_pieces market confirm view url plan
                    (record s { world = (confirm s.world).1 })))
  unfolding submit_ddo confirm_submission
  submitting plan made =
      elim (Bool-cases (not (nonempty plan) || (request.print_only || request.dry_run))) [
        | inl stops ↦ inl (ground (arith, made, stops))
        | inr goes_on ↦ elim (Result-cases (choose_endpoint market confirm view request s).0) [
          | inr (e, refused) ↦
              inl (ground (arith, made, goes_on, choose_endpoint-reads (err e) refused))
          | inl (url, chosen) ↦ elim (Bool-cases (confirm s.world).0) [
            | inr declined ↦
                inl (ground (arith, made, goes_on, choose_endpoint-reads (ok url) chosen, declined))
            | inl agreed ↦ inr (
              ground (arith, goes_on),
              ground (arith, goes_on),
              agreed,
              url,
              ground (arith, made, goes_on, choose_endpoint-reads (ok url) chosen, agreed),
            )
          ]
        ]
      ]

-- Whatever the contracts, the endpoints and the user answer, `submit_ddo` posts nothing, or the following holds. The deal is ACCEPTED, of this
-- client, with a rail, a validator, an approved operator and sector evidence; the piece set of the manifest has the deal's manifest hash and size; the plan has one entry for each
-- row that the provider has not accepted, in the order of the rows, with the V2 CID of a payload size that fills the row's piece and with
-- the row's proof; neither print-only nor dry-run mode is on, and the user agreed. Then every post is that of an entry of the plan which
-- the endpoint did not know when it was asked; and a run that succeeds has posted as many as it counts, and counts each entry as posted or as known.
pub submit_ddo-IsBacked :
    {W : Type 0} (market : Market W) (confirm : W → Bool × W) (view : DdoDeal) (tools : Tools)
    (request : Request) (s : Submission W)
    → let (r, s') = submit_ddo market confirm view tools request s in
      (s'.posts ≡ s.posts) ⊎ IsBacked market confirm view tools request s (r, s')
unfolding submit_ddo
submit_ddo-IsBacked market confirm view tools request s =
    elim (Result-cases (make_plan tools view request)) [
      | inr (e, refused) ↦ inl (ground (arith, refused))
      | inl (plan, made) ↦ elim (submitting market confirm view tools request s plan made) [
        | inl nothing ↦ inl nothing
        | inr (sends, live, agreed, url, ran) ↦
            let (ready, set, agrees, plans) = make_plan-Plans tools view request plan made in
            let submits =
              submit_pieces-Submits market confirm view url plan
                (record s { world = (confirm s.world).1 }) in
            inr (ready, set, agrees, plan, plans, sends, live, agreed, url, rw (ran) submits)
      ]
    ]
