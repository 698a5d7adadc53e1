-- ===== src/Md/Gateway/Snapshot.antt =====
-- The snapshot of src/md/fix_md_gateway.cpp against its log.
use smart_quant.Prelude.{
  ℕ, ◌≡◌, ◌≢◌, refl, ap, ◌∙◌, subst, Option, none, some, List, [], ◌∷◌, All, Bool-cases, inl, inr,
}
use smart_quant.Prelude.Int.{pos, ltb_ℤ}
use smart_quant.Prelude.Double.{Double}
use smart_quant.Prelude.Map.Hash
use smart_quant.Prelude.Eq.{nat_eq}
use smart_quant.Types.{LobEvent, MdEntryType, new}
use smart_quant.Md.OrderBook.{OrderBook, EntryInfo, Entries, lookup_entry, clear, run, entry_of}
use smart_quant.Md.OrderBook.Live.{live, live_step, entries-run}
use smart_quant.Md.Gateway.{
  Feed, MdEntry, Parsed, skipped, missing, event, blank_event, id_of_field, parse_sided,
  parse_typed, parse_snapshot, handle_event, on_parsed, snapshot_side_of, snapshot_groups,
  on_snapshot,
}
use smart_quant.Md.Gateway.Replay.{
  handle_all, handle_all-logged, handle_all-book, run-append, InStep,
}

-- An event that enters an order under another id.
abbrev EntersOther : ℕ → LobEvent → Type 0
EntersOther id ev = (ev.action ≡ new) × (ev.entry_id ≢ id)

find-live_step_other :
    (id : ℕ) (ev : LobEvent) (es : Entries)
    → EntersOther id ev
    → Hash.find id (live_step es ev) ≡ Hash.find id es
unfolding live_step
find-live_step_other id ev es (a, ne) = elim (Bool-cases (ltb_ℤ (pos 0) ev.qty)) [
  | inl t ↦ rw a (rw t (Hash.find-insert_ne ev.entry_id id (entry_of ev) es ne))
  | inr f ↦ rw a (rw f refl)
]

find-live_other :
    (id : ℕ) (evs : List LobEvent) (es : Entries)
    → All (EntersOther id) evs
    → Hash.find id (live es evs) ≡ Hash.find id es
unfolding live
find-live_other id [] es h = refl
find-live_other id (ev ∷ evs) es (p, h) =
    find-live_other id evs (live_step es ev) h ∙ find-live_step_other id ev es p

lookup-run_other :
    (id : ℕ) (evs : List LobEvent) (b : OrderBook)
    → All (EntersOther id) evs
    → lookup_entry (run b evs) id ≡ lookup_entry b id
unfolding lookup_entry
lookup-run_other id evs b h =
    ap (Hash.find id) (entries-run b evs) ∙ find-live_other id evs b.entries h

-- The message made events that enter other orders, and did nothing else.
abbrev MadeOthers : ℕ → Feed → Feed → Type 0
MadeOthers id g g' = (evs : List LobEvent) × (g' ≡ handle_all g evs) × All (EntersOther id) evs

abbrev Yields : ℕ → Parsed → Type 0
Yields id (event ev) = EntersOther id ev
Yields id _ = Unit {0}

MadeOthers-on_parsed :
    (id : ℕ) (p : Parsed) (g : Feed) (rest : Feed → Feed)
    → Yields id p
    → ((g' : Feed) → MadeOthers id g' (rest g'))
    → MadeOthers id g (on_parsed p g rest)
MadeOthers-on_parsed id skipped g rest y h = h g
MadeOthers-on_parsed id missing g rest y h = ([], refl, tt)
MadeOthers-on_parsed id (event ev) g rest y h =
    let (evs, e, others) = h (handle_event g ev) in (ev ∷ evs, e, (y, others))

lookup-clear : (b : OrderBook) (id : ℕ) → lookup_entry (clear b) id ≡ none
unfolding lookup_entry clear Hash.find
lookup-clear b id = refl

module _ {F : Type 0} ⦃d : Double F⦄ where
  -- A group of a snapshot with another id.
  abbrev pub HasOtherId : ℕ → MdEntry F → Type 0
  HasOtherId id e = id_of_field e.entry_id ≢ id

  Yields-parse_sided :
      (id : ℕ) (ev : LobEvent) (e : MdEntry F) (side : Option MdEntryType)
      → EntersOther id ev
      → Yields id (parse_sided ev e side)
  Yields-parse_sided id ev e none h = tt
  Yields-parse_sided id ev e (some side) h = h

  Yields-parse_typed :
      (id : ℕ) (ev : LobEvent) (e : MdEntry F) (c : Option ℕ)
      → EntersOther id ev
      → Yields id (parse_typed snapshot_side_of ev e c)
  Yields-parse_typed id ev e none h = tt
  Yields-parse_typed id ev e (some c) h = Yields-parse_sided id ev e (snapshot_side_of c) h

  MadeOthers-snapshot_groups :
      (id ts_ns : ℕ) (es : List (MdEntry F)) (g : Feed)
      → All (HasOtherId id) es
      → MadeOthers id g (snapshot_groups ts_ns g es)
  unfolding snapshot_groups parse_snapshot
  MadeOthers-snapshot_groups id ts_ns [] g h = ([], refl, tt)
  MadeOthers-snapshot_groups id ts_ns (e ∷ es) g (ne, h) =
      MadeOthers-on_parsed id (parse_snapshot ts_ns e) g _
        (Yields-parse_typed id
          (record blank_event { timestamp_ns = ts_ns; entry_id = id_of_field e.entry_id }) e
          e.entry_type (refl, ne))
        (λ g'. MadeOthers-snapshot_groups id ts_ns es g' h)

  -- A snapshot clears the book but logs only the orders that it enters: an order that was live, and
  -- that the snapshot does not have, is gone from the book and still there when the log is replayed.
  pub snapshot_breaks_replay :
      (b : OrderBook) (g : Feed) (es : List (MdEntry F)) (ts_ns id : ℕ) (old : EntryInfo)
      → InStep b g
      → lookup_entry g.book id ≡ some old
      → All (HasOtherId id) es
      → let g' = on_snapshot g (some es) ts_ns in
        (lookup_entry g'.book id ≡ none) × (lookup_entry (run b g'.logged) id ≡ some old)
  unfolding on_snapshot
  snapshot_breaks_replay b g es ts_ns id old h live_before others =
      let cleared = record g { book = clear g.book } in
      let (evs, e, new_ones) = MadeOthers-snapshot_groups id ts_ns es cleared others in
      rw e (
        ap (λ c. lookup_entry c id) (handle_all-book evs cleared)
            ∙ lookup-run_other id evs (clear g.book) new_ones
            ∙ lookup-clear g.book id,
        ap (λ l. lookup_entry (run b l) id) (handle_all-logged evs cleared)
            ∙ ap (λ c. lookup_entry c id) (run-append g.logged evs b)
            ∙ lookup-run_other id evs (run b g.logged) new_ones
            ∙ subst (λ c. lookup_entry c id ≡ some old) h live_before,
      )
