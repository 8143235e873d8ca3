-- ===== src/Case/Audit/Links.antt =====
-- services/shared/audit.py: the chain of a case or signal in the store, and what one transaction of
-- the writer does to it.
use mathlib.Core.Path.{fun_ext}
use aera_be.Prelude.{
  String, ℕ, ◌≡◌, ◌≢◌, refl, sym, ◌∙◌, true, false, Option, none, some, List, [], ◌∷◌, ◌++◌, arith,
  Option-cases, inl, inr, All,
}
use aera_be.Storage.{Write, Database, passes, written}
use aera_be.Case.Items.{Chain, StoreKey, head, event, StoreItem, head_item, event_item, AuditEvent}
use aera_be.Case.Audit.{
  genesis, Draft, draft_of, Entry, broken_from, verify_chain, new_event, audit_writes, head_of,
  head_stands,
}

-- The hash that the next event links to.
abbrev pub last_hash_from : String → List AuditEvent → String
last_hash_from h [] = h
last_hash_from h (e ∷ es) = last_hash_from e.hash es

abbrev pub last_id_from : Option ℕ → List AuditEvent → Option ℕ
last_id_from i [] = i
last_id_from i (e ∷ es) = last_id_from (some e.event_id) es

module _ (event_hash : Draft → String) where
  broken_from-snoc :
      (h : String) (es : List AuditEvent) (e : AuditEvent)
      → broken_from event_hash h es ≡ []
      → e.prev_hash ≡ last_hash_from h es
      → e.hash ≡ event_hash (draft_of e)
      → broken_from event_hash h (es ++ e ∷ []) ≡ []
  unfolding broken_from
  broken_from-snoc h [] e ok link own = ground arith
  broken_from-snoc h (x ∷ es) e ok link own = ground (arith, broken_from-snoc x.hash es e)

  last_hash-snoc :
      (h : String) (es : List AuditEvent) (e : AuditEvent)
      → last_hash_from h (es ++ e ∷ []) ≡ e.hash
  last_hash-snoc h [] e = refl
  last_hash-snoc h (x ∷ es) e = last_hash-snoc x.hash es e

  last_id-snoc :
      (i : Option ℕ) (es : List AuditEvent) (e : AuditEvent)
      → last_id_from i (es ++ e ∷ []) ≡ some e.event_id
  last_id-snoc i [] e = refl
  last_id-snoc i (x ∷ es) e = last_id-snoc (some x.event_id) es e

  module _ (c : Chain) where
    -- The item at the head of a chain of events.
    abbrev pub head_item_of : List AuditEvent → Option ℕ → Option StoreItem
    head_item_of es none = none
    head_item_of es (some id) =
        some (head_item (record { last_hash = last_hash_from genesis es; last_event_id = id }))

    -- The events of a chain as they stand in the store: linked, all stored, and the head is theirs.
    pub record IsChain (es : List AuditEvent) (view : StoreKey → Option StoreItem) : Type 0 where
      pub linked : verify_chain event_hash es ≡ []
      pub headed : view (head c) ≡ head_item_of es (last_id_from none es)
      pub stored : All (λ e. view (event c e.event_id) ≡ some (event_item e)) es

    -- The caller's own writes leave the chain alone.
    abbrev pub Aside : List (Write StoreKey StoreItem) → Type 0
    Aside ws = All (λ w. (w.key ≢ head c) × ((i : ℕ) → w.key ≢ event c i)) ws

    aside_at :
        (dec : Discrete StoreKey) (k : StoreKey) (ws : List (Write StoreKey StoreItem))
        (view : StoreKey → Option StoreItem)
        → All (λ w. w.key ≢ k) ws
        → written dec ws view k ≡ view k
    aside_at dec k [] view h = refl
    aside_at dec k (w ∷ ws) view h = ground (arith, aside_at dec k ws view h.1)

    Aside-head : (ws : List (Write StoreKey StoreItem)) → Aside ws → All (λ w. w.key ≢ head c) ws
    Aside-head [] h = tt
    Aside-head (w ∷ ws) h = (h.0.0, Aside-head ws h.1)

    Aside-event :
        (i : ℕ) (ws : List (Write StoreKey StoreItem)) → Aside ws → All (λ w. w.key ≢ event c i) ws
    Aside-event i [] h = tt
    Aside-event i (w ∷ ws) h = (h.0.1 i, Aside-event i ws h.1)

    last_id-some : (i : ℕ) (es : List AuditEvent) → last_id_from (some i) es ≢ none
    last_id-some i [] h = cc
    last_id-some i (e ∷ es) h = last_id-some e.event_id es h

    -- The head that a writer has read, and that still stands, is the head of the chain as it is.
    still_last :
        (o p : Option StoreItem) (previous : String × Option ℕ) (es : List AuditEvent)
        → head_of o ≡ some previous
        → head_stands previous p ≡ true
        → p ≡ head_item_of es (last_id_from none es)
        → previous.0 ≡ last_hash_from genesis es
    still_last o p (h, none) [] read stands now = ground arith
    still_last o p (h, none) (e ∷ es) read stands now =
        elim (Option-cases (last_id_from (some e.event_id) es)) [
          | inl x ↦ absurd (last_id-some e.event_id es x)
          | inr (j, x) ↦ ground arith
        ]
    still_last o p (h, some i) es read stands now = elim (Option-cases (last_id_from none es)) [
      | inl x ↦ ground arith
      | inr (j, x) ↦ ground arith
    ]

    module _ (candidate now : ℕ → ℕ) (db : Database StoreKey StoreItem) where
      module _ (n : ℕ) (x : Entry) (extra : List (Write StoreKey StoreItem))
          (previous : String × Option ℕ) (t : db.State) (mine : x.chain_key ≡ c)
          (aside : Aside extra)
          (passed : passes (audit_writes event_hash candidate now x n previous extra) (db.get t)
            ≡ true) where
        abbrev e' : AuditEvent
        e' = new_event event_hash candidate now x n previous

        abbrev t' : db.State
        t' = db.after (audit_writes event_hash candidate now x n previous extra) t

        new_head :
            db.get t' (head c)
            ≡ some (head_item (record { last_hash = e'.hash; last_event_id = e'.event_id }))
        new_head = ground (
          arith,
          mine,
          passed,
          db.get-after (audit_writes event_hash candidate now x n previous extra) t (head c),
        )

        new_stored : db.get t' (event c e'.event_id) ≡ some (event_item e')
        new_stored = ground (
          arith,
          mine,
          passed,
          db.get-after (audit_writes event_hash candidate now x n previous extra) t
              (event c e'.event_id),
        )

        old_stored :
            (i : ℕ) (y : AuditEvent)
            → db.get t (event c i) ≡ some (event_item y)
            → db.get t' (event c i) ≡ some (event_item y)
        old_stored i y h = ground (
          arith,
          mine,
          passed,
          h,
          db.get-after (audit_writes event_hash candidate now x n previous extra) t (event c i),
          aside_at db.same (event c i) extra (db.get t) (Aside-event i extra aside),
        )

        all_stored :
            (es : List AuditEvent)
            → All (λ y. db.get t (event c y.event_id) ≡ some (event_item y)) es
            → All (λ y. db.get t' (event c y.event_id) ≡ some (event_item y)) (es ++ e' ∷ [])
        all_stored [] h = (new_stored, tt)
        all_stored (y ∷ ys) h = (old_stored y.event_id y h.0, all_stored ys h.1)

        -- A transaction of the writer that goes through puts the event at the end of the chain.
        pub appended :
            (o : Option StoreItem) (es : List AuditEvent)
            → head_of o ≡ some previous
            → IsChain es (db.get t)
            → IsChain (es ++ e' ∷ []) (db.get t')
        unfolding verify_chain
        appended o es read h = record {
          linked =
              broken_from-snoc genesis es e' h.linked
                (still_last o (db.get t (head c)) previous es read (ground (arith, mine, passed))
                  h.headed)
                refl;
          headed = new_head ∙ sym (rw (last_id-snoc none es e', last_hash-snoc genesis es e'));
          stored = all_stored es h.stored;
        }

      -- Other writers keep the chain a chain: they only append to it.
      abbrev pub Appends : (db.State → db.State) → Type 0
      Appends f =
          (es : List AuditEvent) (s : db.State)
          → IsChain es (db.get s)
          → (more : List AuditEvent) × IsChain (es ++ more) (db.get (f s))

      pub refused_same :
          (ws : List (Write StoreKey StoreItem)) (t : db.State) (es : List AuditEvent)
          → passes ws (db.get t) ≡ false
          → IsChain es (db.get t)
          → IsChain es (db.get (db.after ws t))
      refused_same ws t es r h =
          let same : (k : StoreKey) → db.get (db.after ws t) k ≡ db.get t k =
            λ k. ground (arith, db.get-after ws t k) in
          rw (fun_ext same) h
