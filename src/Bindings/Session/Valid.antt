-- ===== src/Bindings/Session/Valid.antt =====
-- python/bindings.cpp: the index stays in order through the calls of a program.
use neuraldatabase.Prelude.{
  ℕ, ◌≤◌, ◌<◌, ◌≡◌, refl, sym, ap, subst, ◌∙◌, inl, inr, Bool, true, false, Option, none, some,
  Bool-cases, Option-cases, List-cases, List, [], ◌∷◌, arith, length, ◌==◌,
}
use neuraldatabase.Float.{Float}
use neuraldatabase.Kernels.{Arith}
use neuraldatabase.Filter.{Text, Json, text_eq}
use neuraldatabase.Hnsw.State.{HnswConfig, HnswIndex}
use neuraldatabase.Hnsw.Invariant.{IsIndex}
use neuraldatabase.Hnsw.Layer.{Scratch}
use neuraldatabase.Hnsw.Layer.Hits.{search_layer-IsScratch}
use neuraldatabase.Hnsw.Layer.Tags.{IsScratch}
use neuraldatabase.Hnsw.Insert
use neuraldatabase.Hnsw.Insert.{max_links, descend}
use neuraldatabase.Hnsw.Insert.Preserve.{descend-lt, insert-IsIndex}
use neuraldatabase.Hnsw.Insert.Arrays.{insert-Rewired}
use neuraldatabase.Hnsw.Query
use neuraldatabase.Hnsw.Query.{live_entry}
use neuraldatabase.Hnsw.Query.Answer.{live_entry-lt}
use neuraldatabase.Hnsw.Storage.{saved_bytes, save, load, cannot_read}
use neuraldatabase.Hnsw.Storage.RoundTrip.{IsStorable, load-saved_bytes}
use neuraldatabase.Hnsw.Compact.Live.{compacted-IsScratch}
use neuraldatabase.Filter.Meaning.{un_some}
use neuraldatabase.Hnsw.Threads.Next.{delete_vector-IsNext}
use neuraldatabase.Bindings.Values.{
  PyValue, JsonValues, NpArray, get_ptr, dict_to_json, insert, search_call,
}
use neuraldatabase.Bindings.Session.{
  Session, Call, insert_call, delete_call, is_deleted_call, compact_call, find_call, save_call,
  load_call, len_call, live_size_call, set_ef_search_call, asked, search_scratch, compact_session,
  after_call,
}

pub record IsSession (s : Session) : Type 0 where
  pub index : IsIndex s.index
  pub some_link : 0 < (s.index).cfg.m
  pub some_result : 0 < (s.index).cfg.ef_search
  pub scratch : IsScratch s.scratch

-- The memory behind the pointer of a flat array has a float for each element.
abbrev pub IsArray : NpArray → Type 0
IsArray arr = (n : ℕ) → arr.shape ≡ n ∷ [] → n ≤ length arr.memory

-- The file was saved from an index in order, with numbers that fit, and no larger M.
pub record IsSaved (cfg : HnswConfig) (bytes : List ℕ) : Type 0 where
  pub source : HnswIndex
  pub written : bytes ≡ saved_bytes source
  pub valid : IsIndex source
  pub fits : IsStorable source
  pub m_le : source.cfg.m ≤ cfg.m

-- What the calls need of their arguments.
abbrev pub IsCall : Session → Call → Type 0
IsCall s (insert_call id arr metadata level) = IsArray arr
IsCall s (compact_call index_path wal_path opens levels) = text_eq wal_path index_path ≡ false
IsCall s (load_call path opens unset) =
    (bytes : List ℕ) → s.files path ≡ some bytes → IsSaved (s.index).cfg bytes
IsCall s (set_ef_search_call ef) = 0 < ef
IsCall s _ = Unit

max_links_le :
    (small large : HnswConfig) (lc : ℕ)
    → small.m ≤ large.m
    → max_links small lc ≤ max_links large lc
unfolding max_links
max_links_le small large lc h = elim (Bool-cases (lc == 0)) [
  | inl e ↦ rw e (omega arith)
  | inr e ↦ rw e h
]

-- An index in order is so under another configuration with the same M or a larger one.
recfg-IsIndex :
    (index : HnswIndex) (cfg : HnswConfig) (acc : Option (ℕ → List Float))
    → index.cfg.m ≤ cfg.m
    → IsIndex index
    → IsIndex (record index { cfg = cfg; vec_accessor = acc })
recfg-IsIndex index cfg acc le h = record {
  ids = h.ids;
  texts = h.texts;
  marks = h.marks;
  floats = h.floats;
  graph = record {
    nodes = (h.graph).nodes;
    in_range = (h.graph).in_range;
    degree = λ n lc.
        let d = (h.graph).degree n lc in let l = max_links_le index.cfg cfg lc le in omega arith;
  };
  entry = h.entry;
}

get_ptr-length :
    (arr : NpArray) (dim : ℕ) (vec : List Float)
    → IsArray arr
    → get_ptr arr dim ≡ some vec
    → dim ≤ length vec
unfolding get_ptr
get_ptr-length arr dim vec a h = elim (List-cases arr.shape) [
  | inl e ↦ absurd (ground (arith, rw e at h))
  | inr (n, rest, e) ↦ elim (List-cases rest) [
    | inl one ↦
        let size = a n (e ∙ ap (λ r. n ∷ r) one) in
        elim (Bool-cases (n == dim)) [
          | inl same ↦
              let el = un_some (rw (get_ptr, e, one, same) at h) in
              let enough : dim ≤ length arr.memory = ground (arith, size) in rw el at enough
          | inr other ↦ absurd (ground (arith, rw (get_ptr, e, one, other) at h))
        ]
    | inr (m, more, two) ↦ absurd (ground (arith, rw (e, two) at h))
  ]
]

module _ (ops : Arith Float) (index : HnswIndex) (query : List Float) (k : ℕ) (s : Scratch) where
  -- A search leaves the buffer fit for use.
  search-IsScratch :
      0 < index.cfg.ef_search
      → IsIndex index
      → IsScratch s
      → IsScratch (Query.search ops index query k s).1
  unfolding Query.search
  search-IsScratch pos h v = elim (Bool-cases (index.num_vectors == 0)) [
    | inl e ↦ rw e v
    | inr e ↦ elim (Option-cases (live_entry index)) [
      | inl none_live ↦ rw (e, none_live) v
      | inr (entry, found) ↦
          let at = live_entry-lt index entry (h.entry (ground arith)) found in
          let d = descend-lt ops query index 0 index.max_layer entry s h.graph.in_range at.0 v in
          let (ep, s') = descend ops index query 0 index.max_layer (entry, s) in
          rw (e, found)
            (search_layer-IsScratch ops index query ep index.cfg.ef_search 0 s' pos h.graph.in_range
              d.0 d.1)
    ]
  ]

load-none : (unset : ℕ) (index : HnswIndex) → load unset index none ≡ cannot_read
unfolding load
load-none unset index = refl

module _ {J : Type 0} (values : JsonValues J) (json : Json J) (ops : Arith Float) (s : Session)
    (h : IsSession s) where
  insert-IsSession :
      (id : ℕ) (arr : NpArray) (metadata : PyValue) (level : ℕ)
      → IsArray arr
      → IsSession (after_call values json ops s (insert_call id arr metadata level))
  unfolding after_call insert Insert.append_node
  insert-IsSession id arr metadata level a = elim (Option-cases (get_ptr arr (s.index).dim)) [
    | inl e ↦ rw (after_call, insert, e) h
    | inr (vec, e) ↦ elim (Option-cases (dict_to_json values json metadata)) [
      | inl f ↦ rw (after_call, insert, e, f) h
      | inr (text, f) ↦
          let n =
            insert-IsIndex ops s.index id vec text level s.scratch h.some_link h.scratch h.index
              (omega (arith, get_ptr-length arr (s.index).dim vec a e)) in
          let r = insert-Rewired ops s.index id vec text level s.scratch in
          rw (after_call, insert, e, f)
            (record {
              index = n.0;
              some_link = subst (λ (x : HnswIndex). 0 < x.cfg.m) (sym r) h.some_link;
              some_result = subst (λ (x : HnswIndex). 0 < x.cfg.ef_search) (sym r) h.some_result;
              scratch = n.1;
            })
    ]
  ]

  find-IsSession :
      (arr : NpArray) (k : ℕ) (where_obj : PyValue)
      → IsSession (after_call values json ops s (find_call arr k where_obj))
  unfolding after_call search_scratch
  find-IsSession arr k where_obj = record {
    index = h.index;
    some_link = h.some_link;
    some_result = h.some_result;
    scratch = elim (Option-cases (search_call values json ops s.index arr k where_obj s.scratch)) [
      | inl e ↦ rw (search_scratch, e) h.scratch
      | inr (hits, e) ↦ elim (Option-cases (get_ptr arr (s.index).dim)) [
        | inl f ↦ rw (search_scratch, e, f) h.scratch
        | inr (query, f) ↦
            rw (search_scratch, e, f)
              (search-IsScratch ops s.index query (asked where_obj k) s.scratch h.some_result
                h.index h.scratch)
      ]
    ];
  }

  load-IsSession :
      (path : Text) (opens : Bool) (unset : ℕ)
      → IsCall s (load_call path opens unset)
      → IsSession (after_call values json ops s (load_call path opens unset))
  unfolding after_call
  load-IsSession path false unset c = rw (after_call, load-none unset s.index) h
  load-IsSession path true unset c = elim (Option-cases (s.files path)) [
    | inl f ↦ rw (after_call, f, load-none unset s.index) h
    | inr (bytes, f) ↦
        let d = c bytes f in
        rw (after_call, f, d.written, load-saved_bytes unset s.index d.source d.valid d.fits)
          (record {
            index = recfg-IsIndex d.source (s.index).cfg (s.index).vec_accessor d.m_le d.valid;
            some_link = h.some_link;
            some_result = h.some_result;
            scratch = h.scratch;
          })
  ]

  save-IsSession :
      (path : Text) (opens : Bool) → IsSession (after_call values json ops s (save_call path opens))
  unfolding after_call save
  save-IsSession path true = record {
    index = h.index;
    some_link = h.some_link;
    some_result = h.some_result;
    scratch = h.scratch;
  }
  save-IsSession path false = h

  -- Every method keeps the object in order.
  pub after_call-IsSession : (c : Call) → IsCall s c → IsSession (after_call values json ops s c)
  unfolding after_call compact_session
  after_call-IsSession (insert_call id arr metadata level) v =
      insert-IsSession id arr metadata level v
  after_call-IsSession (delete_call id) v =
      let n = delete_vector-IsNext s.index id h.index in
      record {
        index = n.valid;
        some_link = subst (λ (c : HnswConfig). 0 < c.m) (sym n.cfg) h.some_link;
        some_result = subst (λ (c : HnswConfig). 0 < c.ef_search) (sym n.cfg) h.some_result;
        scratch = h.scratch;
      }
  after_call-IsSession (is_deleted_call id) v = h
  after_call-IsSession (compact_call index_path wal_path opens levels) v = record {
    index = h.index;
    some_link = h.some_link;
    some_result = h.some_result;
    scratch = compacted-IsScratch ops s.index levels h.index h.some_link s.scratch h.scratch;
  }
  after_call-IsSession (find_call arr k where_obj) v = find-IsSession arr k where_obj
  after_call-IsSession (save_call path opens) v = save-IsSession path opens
  after_call-IsSession (load_call path opens unset) v = load-IsSession path opens unset v
  after_call-IsSession len_call v = h
  after_call-IsSession live_size_call v = h
  after_call-IsSession (set_ef_search_call ef) v = record {
    index =
        recfg-IsIndex s.index (record ((s.index).cfg) { ef_search = ef }) (s.index).vec_accessor
          (omega arith) h.index;
    some_link = h.some_link;
    some_result = v;
    scratch = h.scratch;
  }

module _ {J : Type 0} (values : JsonValues J) (json : Json J) (ops : Arith Float) where
  -- The sessions that calls lead to, one after the other.
  pub data Calls : Session → Session → Type 0 where
    none_yet : {s : Session} → Calls s s
    and_then :
        {s t : Session}
        → Calls s t
        → (c : Call) → IsCall t c
        → Calls s (after_call values json ops t c)

  -- Whatever methods are called, in whatever order and with whatever arguments, an object in order,
  -- with M and ef_search above 0, stays so. A file that is loaded was saved from an index in order
  -- with numbers that fit their fields and no larger M; compact has two different paths; ef_search
  -- is set to no 0; and the memory of an array has a float for each of its elements.
  pub Calls-IsSession : {s t : Session} → Calls s t → IsSession s → IsSession t
  Calls-IsSession none_yet h = h
  Calls-IsSession (and_then {t = t} r c v) h =
      after_call-IsSession values json ops t (Calls-IsSession r h) c v
