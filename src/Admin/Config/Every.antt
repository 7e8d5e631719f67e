-- ===== src/Admin/Config/Every.antt =====
-- A predicate on all the settings of a configuration patch.
use wgtemporary_email.Base.{
  String, sym, none, some, [], ◌∷◌, All, Bool-cases, inl, inr, str_eq, eq_iff,
}
use wgtemporary_email.Base.Dict.{Dict, lookup, insert}
use wgtemporary_email.Admin.Requests.{Value}
use wgtemporary_email.Admin.Config.Fields.{Config}
use wgtemporary_email.Admin.Config.Patch.{put}

insert-All :
    {V : Type 0} (Q : String × V → Type 0) (k : String) (v : V) (d : Dict V)
    → Q (k, v)
    → All Q d
    → All Q (insert k v d)
insert-All Q k v [] q h = (q, tt)
insert-All Q k v ((j, w) ∷ d) q h = elim (Bool-cases (str_eq j k)) [
  | inl same ↦ rw same (rw ((eq_iff j k).0 same) q, h.1)
  | inr other ↦ rw other (h.0, insert-All Q k v d q h.1)
]

module _ (P : (section key : String) → Value → Type 0) where
  -- The predicate holds of each setting.
  abbrev pub Every : Config → Type 0
  Every c = All (λ (s : String × Dict Value). All (λ (e : String × Value). P s.0 e.0 e.1) s.1) c

  section-All :
      (section : String) (c : Config)
      → Every c
      → All
          (λ (e : String × Value). P section e.0 e.1)
          (elim (lookup section c) [ none ↦ [] | some d ↦ d ])
  section-All section [] h = tt
  section-All section ((s, d) ∷ c) h = elim (Bool-cases (str_eq s section)) [
    | inl same ↦ rw same (rw (sym ((eq_iff s section).0 same)) h.0)
    | inr other ↦ rw other (section-All section c h.1)
  ]

  pub put-Every :
      (section key : String) (v : Value) (c : Config)
      → P section key v
      → Every c
      → Every (put section key v c)
  put-Every section key v c p h =
      insert-All (λ (s : String × Dict Value). All (λ (e : String × Value). P s.0 e.0 e.1) s.1)
        section (insert key v (elim (lookup section c) [ none ↦ [] | some d ↦ d ])) c
        (insert-All (λ (e : String × Value). P section e.0 e.1) key v _ p (section-All section c h))
        h
