-- ===== src/PluginMgr/Balance.antt =====
-- Calls outside of core/plugin_mgr.c that give back what they took.
use mathlib.Core.List.{append_assoc}
use syswatcher.Base.{
  ℕ, ◌≡◌, refl, ap, ◌∙◌, ◌⊎◌, inl, inr, true, false, List, [], ◌∷◌, ◌++◌, some, arith,
  if◌then◌else◌,
}
use syswatcher.PluginMgr.{Plugin, Call, opened, closed, inited, exited}
use syswatcher.PluginMgr.Unload.{handle_of}

-- The calls of a load that gave back what it took: nothing, a handle, or a handle and a plugin whose
-- init function had returned 0.
pub data IsBalanced : List Call → Type 0 where
  nothing : IsBalanced []
  handle : (h : ℕ) → IsBalanced (opened h ∷ closed h ∷ [])
  plugin : (h f g : ℕ) → IsBalanced (opened h ∷ inited f ∷ exited g ∷ closed h ∷ [])

-- The flags say of the plugin what was called for it since the `before` calls.
pub record Traced (before after : List Call) (p : Plugin) : Type 0 where
  pub opens : List Call
  pub inits : List Call
  pub all : after ≡ before ++ opens ++ inits
  pub of_dlopen :
      ((p.load_flags.dlopen ≡ false) × (opens ≡ []))
      ⊎ ((h : ℕ) × (p.load_flags.dlopen ≡ true) × (p.handler ≡ some h) × (opens ≡ opened h ∷ []))
  pub of_init :
      ((p.load_flags.init ≡ false) × (inits ≡ []))
      ⊎ ((f : ℕ) × (p.load_flags.init ≡ true)
          × (p.load_flags.dlopen ≡ true)
          × (inits ≡ inited f ∷ []))

-- The calls of an unload, by the flags of the plugin.
pub record Untraced (before after : List Call) (p : Plugin) : Type 0 where
  pub exits : List Call
  pub closes : List Call
  pub all : after ≡ before ++ exits ++ closes
  pub of_init :
      ((p.load_flags.init ≡ false) × (exits ≡ []))
      ⊎ ((g : ℕ) × (p.load_flags.init ≡ true) × (exits ≡ exited g ∷ []))
  pub of_dlopen : closes ≡ (if p.load_flags.dlopen then handle_of p.handler else [])

pub Untraced-IsBalanced :
    (before after final : List Call) (p : Plugin)
    → Traced before after p
    → Untraced after final p
    → (extra : List Call) × IsBalanced extra × (final ≡ before ++ extra)
Untraced-IsBalanced before after final p t u =
    let joined : final ≡ before ++ (t.opens ++ (t.inits ++ (u.exits ++ u.closes))) =
      u.all
      ∙ ap (λ l. l ++ u.exits ++ u.closes) t.all
      ∙ append_assoc (before ++ t.opens ++ t.inits) u.exits u.closes
      ∙ append_assoc (before ++ t.opens) t.inits (u.exits ++ u.closes)
      ∙ append_assoc before t.opens (t.inits ++ (u.exits ++ u.closes)) in
    elim t.of_dlopen [
      | inl (shut, opens) ↦ elim t.of_init [
        | inl (not_run, inits) ↦
            let exits : u.exits ≡ [] = elim u.of_init [
              | inl (_, exits) ↦ exits
              | inr (g, has_run, _) ↦ absurd (ground arith)
            ] in
            let closes : u.closes ≡ [] = u.of_dlopen ∙ ground arith in
            ([], nothing, joined ∙ rw (opens, inits, exits, closes) refl)
        | inr (f, has_run, is_open, inits) ↦ absurd (ground arith)
      ]
      | inr (h, is_open, handler, opens) ↦
          let closes : u.closes ≡ closed h ∷ [] = u.of_dlopen ∙ rw (is_open, handler) refl in
          elim t.of_init [
            | inl (not_run, inits) ↦
                let exits : u.exits ≡ [] = elim u.of_init [
                  | inl (_, exits) ↦ exits
                  | inr (g, has_run, _) ↦ absurd (ground arith)
                ] in
                (opened h ∷ closed h ∷ [], handle h, joined ∙ rw (opens, inits, exits, closes) refl)
            | inr (f, has_run, _, inits) ↦ elim u.of_init [
              | inl (not_run, _) ↦ absurd (ground arith)
              | inr (g, _, exits) ↦ (
                opened h ∷ inited f ∷ exited g ∷ closed h ∷ [],
                plugin h f g,
                joined ∙ rw (opens, inits, exits, closes) refl,
              )
            ]
          ]
    ]
