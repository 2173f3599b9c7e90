-- ===== src/Config/Loader/Stops.antt =====
-- What an exception in the middle of loadFromFile leaves of the document.
use v2_engine.Common.{ℕ, ◌≡◌, none, some, List, [], ◌∷◌, ◌++◌, refl, sym}
use v2_engine.Config.{RuntimeConfig, default_config}
use v2_engine.Config.Loader.{
  Setting, int_at, bool_at, text_at, settings, key_of, JsonLib, convert, assign, load_settings,
  holds, load_from_file,
}

module _ (J : JsonLib) where
  -- The value does not convert to the type of the setting's field.
  unfoldable pub Unfit : Setting → J.Value → Type 0
  Unfit (int_at key put) v = J.get_int v ≡ none
  Unfit (bool_at key put) v = J.get_bool v ≡ none
  Unfit (text_at key put) v = J.get_text v ≡ none

  unfoldable pub Lacks : List Setting → J.Document → Type 0
  Lacks [] j = Unit
  Lacks (s ∷ ss) j = (J.find (key_of s) j ≡ none) × Lacks ss j

  -- Two documents say the same of some settings.
  unfoldable pub Agree : List Setting → J.Document → J.Document → Type 0
  Agree [] j j' = Unit
  Agree (s ∷ ss) j j' = (J.find (key_of s) j ≡ J.find (key_of s) j') × Agree ss j j'

  convert-Unfit :
      (s : Setting) (v : J.Value) (c : RuntimeConfig) → Unfit s v → convert J s v c ≡ none
  unfolding convert Unfit
  convert-Unfit (int_at key put) v c e = rw e refl
  convert-Unfit (bool_at key put) v c e = rw e refl
  convert-Unfit (text_at key put) v c e = rw e refl

  assign-Unfit :
      (s : Setting) (j : J.Document) (v : J.Value) (c : RuntimeConfig)
      → J.find (key_of s) j ≡ some v
      → Unfit s v
      → assign J s j c ≡ none
  unfolding assign
  assign-Unfit s j v c there unfit = rw (there, assign) (convert-Unfit s v c unfit)

  assign-missing :
      (s : Setting) (j : J.Document) (c : RuntimeConfig)
      → J.find (key_of s) j ≡ none
      → assign J s j c ≡ some c
  unfolding assign
  assign-missing s j c gone = rw (gone, assign) refl

  assign-same :
      (s : Setting) (j j' : J.Document) (c : RuntimeConfig)
      → J.find (key_of s) j ≡ J.find (key_of s) j'
      → assign J s j c ≡ assign J s j' c
  unfolding assign
  assign-same s j j' c e = rw (e, assign) refl

  load_settings-Lacks :
      (ss : List Setting) (j : J.Document) (c : RuntimeConfig)
      → Lacks ss j
      → load_settings J ss j c ≡ c
  unfolding load_settings assign Lacks
  load_settings-Lacks [] j c l = refl
  load_settings-Lacks (s ∷ ss) j c l =
      rw (assign-missing s j c l.0, load_settings) (load_settings-Lacks ss j c l.1)

  -- Of two lists of settings with the same beginning and two documents that agree on it, the rests do
  -- not matter if they change nothing.
  load_settings-append :
      (before rest : List Setting) (j j' : J.Document) (c : RuntimeConfig)
      → Agree before j j'
      → ((d : RuntimeConfig) → load_settings J rest j d ≡ load_settings J rest j' d)
      → load_settings J (before ++ rest) j c ≡ load_settings J (before ++ rest) j' c
  unfolding load_settings assign Agree
  load_settings-append [] rest j j' c a same = same c
  load_settings-append (s ∷ before) rest j j' c a same =
      rw (assign-same s j j' c a.0, load_settings)
        (elim (assign J s j' c)
          as (λ o.
            elim o [ none ↦ c | some d ↦ load_settings J (before ++ rest) j d ]
            ≡ elim o [ none ↦ c | some d ↦ load_settings J (before ++ rest) j' d ]) [
              | none ↦ refl
              | some d ↦ load_settings-append before rest j j' d a.1 same
            ])

  -- If the value of a key does not convert, what is loaded is what a document gives that says the same
  -- of the keys before it and has neither this key nor any after it: the loader drops them in silence,
  -- whatever values they have.
  pub load_from_file-stops :
      (level : ℕ) (j j' : J.Document) (before after : List Setting) (s : Setting) (v : J.Value)
      → settings ≡ before ++ s ∷ after
      → J.find (key_of s) j ≡ some v
      → Unfit s v
      → Agree before j j'
      → Lacks (s ∷ after) j'
      → load_from_file J level (holds j) ≡ load_from_file J level (holds j')
  unfolding load_from_file load_settings assign
  load_from_file-stops level j j' before after s v split there unfit agree lacks = rw split (
      load_settings-append before (s ∷ after) j j' (default_config level) agree (λ d.
        rw (assign-Unfit s j v d there unfit, load_settings)
          (sym (load_settings-Lacks (s ∷ after) j' d lacks))))
