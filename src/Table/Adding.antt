-- ===== src/Table/Adding.antt =====
-- The adding of an entry in `lws_table_set` of src/lws_table.c.
use nginx_lws.Base.{
  ℕ, ◌+◌, ◌<◌, ◌≡◌, refl, sym, ap, ◌∙◌, ◌==◌, Bool, true, false, ◌&&◌, not, Bool-cases, ◌⊎◌, inl,
  inr, none, some, List, [], ◌∷◌, ◌++◌, arith,
}
use nginx_lws.Table.Defs.{Entry, Table, Strings, lws_table_hash}
use nginx_lws.Table.Ops.{Alloc, evict_as_needed, rehash_as_needed, new_entry, add_entry}
use nginx_lws.Table.Size.{lws_table_size}
use nginx_lws.Table.Prime.{IsPrime}
use nginx_lws.Table.Valid.{IsValid, view}
use nginx_lws.Table.Rehash.{NextIsPrime, lws_table_rehash-Grown}
use nginx_lws.Table.Add.{IsMissing, IsNew, new_entry-added}
use nginx_lws.Table.Evict.{evict_item, Evicted, evict-Evicted, IsMissing-evict_item}

-- Why an entry could not be added.
abbrev pub Reason : Alloc → Table → Type 0
Reason ok t = (ok.array ≡ false) ⊎ (ok.key ≡ false) ⊎ (lws_table_size (t.alloc + 1) ≡ some none)

refused :
    (ok : Alloc) (t t₁ : Table)
    → (ok.array ≡ false) ⊎ (lws_table_size (t₁.alloc + 1) ≡ some none)
    → t₁.alloc ≡ t.alloc
    → Reason ok t
refused ok t t₁ (inl h) e = inl h
refused ok t t₁ (inr h) e = inr (inr (rw e at h))

IsNew-congr :
    (str : Strings) (seed : ℕ) {t t₂ : Table} {now value : ℕ} {key : List ℕ} {e : Entry}
    → t₂.ci ≡ t.ci
    → t₂.timed ≡ t.timed
    → IsNew str seed t₂ now key value e
    → IsNew str seed t now key value e
IsNew-congr str seed ci timed n = record {
  key_lem = n.key_lem;
  value_lem = n.value_lem;
  hash_lem = rw ci at n.hash_lem;
  state_lem = n.state_lem;
  time_lem = rw timed at n.time_lem;
}

module _ (str : Strings) (seed now : ℕ) where
  -- A table with room for one more entry.
  record Ready (t t' : Table) : Type 0 where
    valid : IsValid str seed t'
    content : view t' ≡ evict_item t
    room : t'.count < t'.load
    timed : t'.timed ≡ t.timed
    ci : t'.ci ≡ t.ci
    prime : IsPrime t'.alloc

  rehash-Ready :
      (t : Table) {t₁ : Table}
      → Evicted str seed t t₁
      → IsPrime t.alloc
      → NextIsPrime t
      → (calloc : Bool)
      → ((rehash_as_needed str seed now calloc t₁ ≡ some (t₁, false))
          × ((calloc ≡ false) ⊎ (lws_table_size (t₁.alloc + 1) ≡ some none)))
        ⊎ ((t₂ : Table) × (rehash_as_needed str seed now calloc t₁ ≡ some (t₂, true)) × Ready t t₂)
  unfolding rehash_as_needed
  rehash-Ready t {t₁} ev prime next calloc = elim (Bool-cases (t₁.count == t₁.load)) [
    | inr roomy ↦ inr (
      t₁,
      rw (roomy, rehash_as_needed),
      record {
        valid = ev.valid;
        content = ev.content;
        room = ground (arith, ev.valid.loaded);
        timed = ev.timed;
        ci = ev.ci;
        prime = rw ev.alloc prime;
      },
    )
    | inl full ↦ elim (lws_table_rehash-Grown str seed ev.valid (rw ev.alloc next) calloc) [
      | inl (run, why) ↦ inl (rw (full, rehash_as_needed) run, why)
      | inr (t₂, run, g) ↦ inr (
        t₂,
        rw (full, rehash_as_needed) run,
        record {
          valid = g.valid;
          content = g.content ∙ ev.content;
          room = omega (arith, g.count, g.roomier, ev.valid.loaded);
          timed = g.timed ∙ ev.timed;
          ci = g.ci ∙ ev.ci;
          prime = g.prime;
        },
      )
    ]
  ]

  -- What the adding of an entry gives: after the eviction the new item is the last, or there is
  -- none for one of the reasons.
  abbrev pub Added : Alloc → Table → List ℕ → ℕ → Table × Bool → Type 0
  Added ok t key value r =
      ((r.1 ≡ false) × (view r.0 ≡ evict_item t) × Reason ok t)
      ⊎ ((e : Entry) × (r.1 ≡ true)
          × IsNew str seed t now key value e
          × (view r.0 ≡ evict_item t ++ e ∷ []))

  add_run :
      (ok : Alloc) (t t₁ t₂ t₃ : Table) (key : List ℕ) (value hash : ℕ)
      → evict_as_needed str seed now t ≡ some t₁
      → rehash_as_needed str seed now ok.array t₁ ≡ some (t₂, true)
      → (t₂.dup && not ok.key) ≡ false
      → new_entry str seed now t₂ key value hash ≡ some t₃
      → add_entry str seed now ok t key value hash ≡ some (t₃, true)
  unfolding add_entry
  add_run ok t t₁ t₂ t₃ key value hash e f g h = rw (e, add_entry) (rw f (rw g (rw h)))

  -- The last step, with room for the entry.
  add-Ready :
      (ok : Alloc) (t t₁ t₂ : Table)
      → evict_as_needed str seed now t ≡ some t₁
      → rehash_as_needed str seed now ok.array t₁ ≡ some (t₂, true)
      → (t₂.dup && not ok.key) ≡ false
      → Ready t t₂
      → (key : List ℕ) (value : ℕ) → IsMissing str seed t₂.ci key (view t₂)
      → (t₃ : Table) × (e : Entry) × (add_entry str seed now ok t key value
            (lws_table_hash str seed t₂.ci key)
          ≡ some (t₃, true))
        × IsNew str seed t₂ now key value e
        × (view t₃ ≡ view t₂ ++ e ∷ [])
        × IsValid str seed t₃
  add-Ready ok t t₁ t₂ run₁ run₂ fine ready key value missing =
      let (t₃, e, run₃, new, content, valid) =
        new_entry-added str seed ready.valid ready.prime now key value ready.room missing in
      (
        t₃,
        e,
        add_run ok t t₁ t₂ t₃ key value (lws_table_hash str seed t₂.ci key) run₁ run₂ fine run₃,
        new,
        content,
        valid,
      )

  pub add_entry-Added :
      (ok : Alloc) {t : Table} (v : IsValid str seed t)
      → IsPrime t.alloc
      → NextIsPrime t
      → (key : List ℕ) (value : ℕ) → IsMissing str seed t.ci key (view t)
      → (r : Table × Bool) × (add_entry str seed now ok t key value
            (lws_table_hash str seed t.ci key)
          ≡ some r)
        × IsValid str seed r.0
        × Added ok t key value r
  unfolding add_entry
  add_entry-Added ok {t} v prime next key value missing =
      let (t₁, run₁, ev) = evict-Evicted str seed now v in
      elim (rehash-Ready t ev prime next ok.array) [
        | inl (run₂, why) ↦ (
          (t₁, false),
          rw (run₁, add_entry) (rw run₂),
          ev.valid,
          inl (refl, ev.content, refused ok t t₁ why ev.alloc),
        )
        | inr (t₂, run₂, ready) ↦ elim (Bool-cases (t₂.dup && not ok.key)) [
          | inl stuck ↦ (
            (t₂, false),
            rw (run₁, add_entry) (rw run₂ (rw stuck)),
            ready.valid,
            inl (refl, ready.content, inr (inl (ground arith))),
          )
          | inr fine ↦
              let missing₂ : IsMissing str seed t₂.ci key (view t₂) =
                rw (ready.ci, ready.content) (IsMissing-evict_item str seed t t.ci key missing) in
              let (t₃, e, run₃, new, content, valid) =
                add-Ready ok t t₁ t₂ run₁ run₂ fine ready key value missing₂ in
              (
                (t₃, true),
                ap (λ ci. add_entry str seed now ok t key value (lws_table_hash str seed ci key))
                      (sym ready.ci)
                    ∙ run₃,
                valid,
                inr (
                  e,
                  refl,
                  IsNew-congr str seed ready.ci ready.timed new,
                  content ∙ ap (λ es. es ++ e ∷ []) ready.content,
                ),
              )
        ]
      ]
