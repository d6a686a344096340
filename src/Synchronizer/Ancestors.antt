-- ===== src/Synchronizer/Ancestors.antt =====
-- primary/src/synchronizer.rs, `get_all_headers_for_proposal`: the headers of a lane down to a height.
use mathlib.Core.List.{append-nil, append_assoc}
use auto_pilot.Crypto.{Digest, PublicKey, Dalek}
use auto_pilot.Messages.Errors.{DagResult}
use auto_pilot.Messages.Types.{Height, Proposal, Header}
use auto_pilot.Messages.Digests.{header_digest}
use auto_pilot.Core.State.{◌and_then◌}
use auto_pilot.Core.Accepted.{some_injective}
use auto_pilot.Committer.Order.{and_then_some}
use auto_pilot.Synchronizer.{
  StoreView, SyncState, pred_u64, take_parent, get_parent_header, climb_down,
  get_all_headers_for_proposal,
}
use auto_pilot.Prelude.{
  ltb, leb, ◌==◌, if◌then◌else◌, lt→leb_false, le→leb, ==_iff, Bool-cases, nat_eq, pair_eq, lookup,
  insert, lookup-insert, ok, err, ℕ, zero, suc, ◌+◌, ◌-◌, ◌≤◌, ◌<◌, ◌≡◌, refl, sym, ap, ◌∙◌, ◌⊎◌,
  inl, inr, true, false, Option, none, some, List, [], ◌∷◌, ◌++◌, arith,
}

abbrev found_in : DagResult (Option Header) → Option Header
found_in (ok found) = found
found_in (err _) = none

found_in_ok : (r : DagResult (Option Header)) (p : Header) → found_in r ≡ some p → r ≡ ok (some p)
found_in_ok (ok o) p h = ap ok h
found_in_ok (err e) p h = absurd (let bad = h in cc)

-- The primary has a fast sync height for the lane.
abbrev pub IsTracked : PublicKey → SyncState → Type 0
IsTracked a s = (height : Height) × (lookup a s.last_fast_sync_heights ≡ some height)

module _ (d : Dalek) (view : StoreView) where
  -- The parent of a header: the genesis header of its lane, or a stored one.
  abbrev pub parent_of : List (PublicKey × Header) → Header → Option Header
  parent_of genesis_headers h = lookup h.author genesis_headers and_then λ (genesis : Header).
      if h.parent_cert.header_digest == header_digest d genesis
      then some genesis
      else found_in (view.header_of h.parent_cert.header_digest)

  abbrev pub IsStored : Header → Type 0
  IsStored h = (h.height ≡ 0) ⊎ ((digest : Digest) × (view.header_of digest ≡ ok (some h)))

  -- Every stored header above height 0 has its parent, one below it in the same lane.
  pub record IsLinked (genesis_headers : List (PublicKey × Header)) : Type 0 where
    pub parent :
        (h : Header)
        → IsStored h
        → 0 < h.height
        → (p : Header) × (parent_of genesis_headers h ≡ some p)
          × (suc p.height ≡ h.height)
          × (p.author ≡ h.author)
          × IsStored p

  -- The headers from `h` on, each followed by its parent, down to the height above `stop`.
  pub data Descends (genesis_headers : List (PublicKey × Header)) (stop : Height)
      : Header → List Header → Type 0 where
    bottom : (h : Header) → h.height ≡ stop → Descends genesis_headers stop h []
    above :
        (h p : Header) (hs : List Header)
        → stop < h.height
        → parent_of genesis_headers h ≡ some p
        → suc p.height ≡ h.height
        → Descends genesis_headers stop p hs
        → Descends genesis_headers stop h (h ∷ hs)

  -- A parent was found and the lane is still tracked.
  record Finds (h p : Header) (s s' : SyncState) : Type 0 where
    answer : get_parent_header d view h s ≡ some (s', ok (some p))
    lanes : s'.genesis_headers ≡ s.genesis_headers
    tracked : IsTracked h.author s'

  take_parent-tracked :
      (h p : Header) (s : SyncState)
      → IsTracked h.author s
      → (s' : SyncState) × (take_parent d view h (ok (some p)) s ≡ some (s', ok (some p)))
        × (s'.genesis_headers ≡ s.genesis_headers)
        × IsTracked h.author s'
  unfolding take_parent
  take_parent-tracked h p s (last, e) = elim (Bool-cases (ltb last (pred_u64 h.height))) [
    | inl more ↦ (
      record s {
        last_fast_sync_heights = insert h.author (pred_u64 h.height) s.last_fast_sync_heights;
      },
      rw (e, more) refl,
      refl,
      (
        pred_u64 h.height,
        lookup-insert h.author h.author (pred_u64 h.height) s.last_fast_sync_heights
            ∙ rw ((==_iff h.author h.author).1 refl) refl,
      ),
    )
    | inr less ↦ (s, rw (e, less) refl, refl, (last, e))
  ]

  -- The lookup of the parent in the lane whose genesis header is `genesis`.
  in_lane-Finds :
      (h p genesis : Header) (s : SyncState)
      → (if h.parent_cert.header_digest == header_digest d genesis
          then some genesis
          else found_in (view.header_of h.parent_cert.header_digest))
        ≡ some p
      → IsTracked h.author s
      → (s' : SyncState) × ((if h.parent_cert.header_digest == header_digest d genesis
            then some (s, ok (some genesis))
            else take_parent d view h (view.header_of h.parent_cert.header_digest) s)
          ≡ some (s', ok (some p)))
        × (s'.genesis_headers ≡ s.genesis_headers)
        × IsTracked h.author s'
  in_lane-Finds h p genesis s e tracked =
      elim (Bool-cases (h.parent_cert.header_digest == header_digest d genesis)) [
        | inl own ↦
            let same : genesis ≡ p = some_injective (rw own at e) in
            (s, rw (own, same) refl, refl, tracked)
        | inr other ↦
            let read = found_in_ok (view.header_of h.parent_cert.header_digest) p (rw other at e) in
            rw (other, read) (take_parent-tracked h p s tracked)
      ]

  get_parent_header-Finds :
      (h p : Header) (s : SyncState)
      → parent_of s.genesis_headers h ≡ some p
      → IsTracked h.author s
      → (s' : SyncState) × Finds h p s s'
  unfolding get_parent_header
  get_parent_header-Finds h p s e tracked =
      let (genesis, lane, rest) = and_then_some (lookup h.author s.genesis_headers) _ p e in
      let (s', answer, lanes, still) = in_lane-Finds h p genesis s rest tracked in
      (s', record { answer = rw lane answer; lanes = lanes; tracked = still })

  -- The loop returns, with headers that descend.
  record Climbs (genesis_headers : List (PublicKey × Header)) (fuel : ℕ) (h : Header)
      (stop : Height) (acc : List Header) (s : SyncState) : Type 0 where
    end : SyncState
    headers : List Header
    run : climb_down d view fuel h h.height stop acc s ≡ some (end, ok (acc ++ headers))
    down : Descends genesis_headers stop h headers

  climb_down-Climbs :
      (genesis_headers : List (PublicKey × Header)) (fuel : ℕ) (h : Header) (stop : Height)
      (acc : List Header) (s : SyncState)
      → s.genesis_headers ≡ genesis_headers
      → IsLinked genesis_headers
      → IsStored h
      → IsTracked h.author s
      → h.height ≡ stop + fuel
      → Climbs genesis_headers fuel h stop acc s
  unfolding climb_down
  climb_down-Climbs gs zero h stop acc s lanes linked stored tracked e =
      let low : leb h.height stop ≡ true = le→leb _ _ (omega (arith, e)) in
      record {
        end = s;
        headers = [];
        run = rw low (ap (λ l. some (s, ok l)) (sym (append-nil acc)));
        down = bottom h (omega (arith, e));
      }
  climb_down-Climbs gs (suc fuel) h stop acc s lanes linked stored tracked e =
      let high : leb h.height stop ≡ false = lt→leb_false _ _ (omega (arith, e)) in
      let (p, is_parent, one_less, same_lane, p_stored) =
        linked.parent h stored (omega (arith, e)) in
      let (t, f) =
        get_parent_header-Finds h p s (ap (λ g. parent_of g h) lanes ∙ is_parent) tracked in
      let rest =
        climb_down-Climbs gs fuel p stop (acc ++ h ∷ []) t (f.lanes ∙ lanes) linked p_stored
          (rw same_lane (f.tracked)) (omega (arith, e, one_less)) in
      record {
        end = rest.end;
        headers = h ∷ rest.headers;
        run =
            rw (high, f.answer)
              (rest.run ∙ ap (λ l. some (rest.end, ok l)) (append_assoc acc (h ∷ []) rest.headers));
        down = above h p rest.headers (omega (arith, e)) is_parent one_less rest.down;
      }

  all_headers_run :
      (fuel : ℕ) (proposal : Proposal) (stop : Height) (h : Header) (s s' : SyncState)
      (hs : List Header)
      → view.header_of proposal.header_digest ≡ ok (some h)
      → h.height ≡ proposal.height
      → climb_down d view fuel h h.height stop [] s ≡ some (s', ok hs)
      → get_all_headers_for_proposal d view fuel proposal stop s ≡ some (s', ok hs)
  unfolding get_all_headers_for_proposal
  all_headers_run fuel proposal stop h s s' hs read here run =
      rw (get_all_headers_for_proposal, read, sym here) run

  -- If the store is linked and holds the header of a proposal at its height, in a lane that is
  -- tracked, then with as much fuel as the height is above the stop height the loop returns. It
  -- gives the headers of the lane, the proposal's first and each followed by its parent, down to the
  -- one just above the stop height.
  pub get_all_headers_for_proposal-Descends :
      (proposal : Proposal) (stop : Height) (h : Header) (s : SyncState)
      → IsLinked s.genesis_headers
      → IsTracked h.author s
      → view.header_of proposal.header_digest ≡ ok (some h)
      → h.height ≡ proposal.height
      → stop ≤ proposal.height
      → (s' : SyncState) × (hs : List Header) × (get_all_headers_for_proposal d view
            (proposal.height - stop)
            proposal
            stop
            s
          ≡ some (s', ok hs))
        × Descends s.genesis_headers stop h hs
  get_all_headers_for_proposal-Descends proposal stop h s linked tracked read here above_stop =
      let c =
        climb_down-Climbs s.genesis_headers (proposal.height - stop) h stop [] s refl linked
          (inr (proposal.header_digest, read)) tracked (omega (arith, here, above_stop)) in
      (
        c.end,
        c.headers,
        all_headers_run _ proposal stop h s c.end c.headers read here c.run,
        c.down,
      )
