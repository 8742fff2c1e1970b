-- ===== src/PluginMgr/Search.antt =====
-- What the searches of core/plugin_mgr.c find.
use syswatcher.Base.{
  ℕ, ◌≡◌, true, List, [], ◌∷◌, ◌++◌, Option, none, some, arith, ◌⊎◌, inl, inr, Bool-cases, ap,
}
use syswatcher.CString.{strncmp_eq}
use syswatcher.PluginMgr.{plugin_mgr_name_length, Plugin}
use syswatcher.PluginMgr.Parser.{search_name}
use syswatcher.PluginMgr.Nodes.{NoneNamed}

-- A plugin of the list, with what stands before and behind it.
pub record Within (ps : List Plugin) (p : Plugin) : Type 0 where
  pub before : List Plugin
  pub after : List Plugin
  pub split : ps ≡ before ++ p ∷ after

module _ (name : List ℕ) where
  pub search_name-some :
      (ps : List Plugin) (found : Option Plugin) (p : Plugin)
      → search_name name ps found ≡ some p
      → (found ≡ some p) ⊎ (Within ps p × (strncmp_eq plugin_mgr_name_length p.name name ≡ true))
  unfolding search_name
  search_name-some [] found p e = inl e
  search_name-some (x ∷ ps) found p e =
      elim (Bool-cases (strncmp_eq plugin_mgr_name_length x.name name)) [
        | inl hit ↦ elim (search_name-some ps (some x) p (rw hit at e)) [
          | inl this ↦ inr (record { before = []; after = ps; split = ground arith }, ground arith)
          | inr (w, m) ↦
              inr (record { before = x ∷ w.before; after = w.after; split = ap (◌∷◌ x) w.split }, m)
        ]
        | inr miss ↦ elim (search_name-some ps found p (rw miss at e)) [
          | inl old ↦ inl old
          | inr (w, m) ↦
              inr (record { before = x ∷ w.before; after = w.after; split = ap (◌∷◌ x) w.split }, m)
        ]
      ]

  pub search_name-none :
      (ps : List Plugin) (found : Option Plugin)
      → search_name name ps found ≡ none
      → (found ≡ none) × NoneNamed name ps
  unfolding search_name
  search_name-none [] found e = (e, tt)
  search_name-none (x ∷ ps) found e =
      elim (Bool-cases (strncmp_eq plugin_mgr_name_length x.name name)) [
        | inl hit ↦ cc ((search_name-none ps (some x) (rw hit at e)).0)
        | inr miss ↦
            let (old, others) = search_name-none ps found (rw miss at e) in (old, (miss, others))
      ]
