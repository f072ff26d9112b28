-- ===== src/Repo/View/Order.antt =====
-- The order in which the map of the keys lists its entries.
use mathlib.Core.Path.{fun_ext}
use feature_probe_server.Prelude.{
  ℕ, String, ◌≡◌, sym, ◌∙◌, Option, some, inl, inr, arith, Option-cases,
}
use feature_probe_server.HashMap.{HashMap, get, IsMap}
use feature_probe_server.Crates.{Crates}
use feature_probe_server.Secrets
use feature_probe_server.Secrets.Invariant.{new-IsConsistent}
use feature_probe_server.Repo.{Inner}
use feature_probe_server.Repo.Published.{taken}
use feature_probe_server.Repo.View.{view, Pairs}
use feature_probe_server.Repo.View.Refines.{IsConsistent-Pairs}

-- No two client keys lead to one server key.
abbrev pub IsOneToOne : HashMap String → Type 0
IsOneToOne mapping = (c d s : String) → get mapping c ≡ some s → get mapping d ≡ some s → c ≡ d

-- What a server key names is the one client key that leads to it, if any.
named_alike :
    {leads names names' : String → Option String}
    → Pairs leads names
    → Pairs leads names'
    → ((c d s : String) → leads c ≡ some s → leads d ≡ some s → c ≡ d)
    → (s : String) → names s ≡ names' s
named_alike {leads} {names} {names'} p q one s = elim (Option-cases (names s)) [
  | inl unnamed ↦ elim (Option-cases (names' s)) [
    | inl also ↦ unnamed ∙ sym also
    | inr (d, named) ↦
        let (c, other) = p.led_names s d (q.named_leads s d named) in absurd (ground arith)
  ]
  | inr (c, named) ↦
      let led = p.named_leads s c named in
      let (d, other) = q.led_names s c led in
      let same : c ≡ d = one c d s led (q.named_leads s d other) in ground arith
]

module _ (crates : Crates) where
  -- Two maps with the same entries, in which no two client keys lead to one server key, give the
  -- same view of the repository that takes them over, in whatever order each lists its entries.
  pub view-order :
      (i : Inner crates) (version : ℕ) (mapping other : HashMap String)
      → IsMap mapping
      → IsMap other
      → IsOneToOne mapping
      → ((c : String) → get mapping c ≡ get other c)
      → view (taken crates i version mapping) ≡ view (taken crates i version other)
  unfolding Secrets.new Secrets.server_sdk_key
  view-order i version mapping other is_map other_is_map one same =
      let p = IsConsistent-Pairs (new-IsConsistent version mapping is_map) in
      let q = IsConsistent-Pairs (new-IsConsistent version other other_is_map) in
      let leads : get mapping ≡ get other = fun_ext same in
      let names = fun_ext (named_alike p (rw leads q) one) in
      λ n. record (view (taken crates i version mapping)) { leads = leads n; names = names n }
