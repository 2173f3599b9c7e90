-- ===== src/Config/Loader/Loaded.antt =====
-- What each field holds once json_config_loader.cpp has loaded a document.
use Prim.Native.String.{String}
use v2_engine.Common.{
  ℕ, ◌≡◌, Bool, true, false, ◌&&◌, none, some, List, [], ◌∷◌, arith, refl, ap, map,
}
use v2_engine.Config.{RuntimeConfig, default_config}
use v2_engine.Config.Loader.{
  Setting, int_at, bool_at, text_at, settings, key_of, JsonLib, convert, assign, load_settings,
  holds, load_from_file,
}

-- What a list of facts about settings is made of.
abbrev pub ◌also◌ : {A B : Type 0} → A → B → A × B
a also b = (a, b)

infixr 2 ◌also◌
pub data Content : Type 0 where
  int : ℕ → Content
  bool : Bool → Content
  text : String → Content

-- How a field is read.
pub data Field : Type 0 where
  int_field : (RuntimeConfig → ℕ) → Field
  bool_field : (RuntimeConfig → Bool) → Field
  text_field : (RuntimeConfig → String) → Field

-- The key of each field, in the order of the loader.
abbrev pub fields : List (String × Field)
fields =
    ("log_level", int_field (λ c. c.log_level))
    ∷ ("worker_count", int_field (λ c. c.worker_count))
    ∷ ("worker_max_batch", int_field (λ c. c.worker_max_batch))
    ∷ ("mainloop_sleep_ms", int_field (λ c. c.main_loop_sleep_ms))
    ∷ ("busy_steal_interval_us", int_field (λ c. c.busy_steal_interval_us))
    ∷ ("idle_steal_interval_us", int_field (λ c. c.idle_steal_interval_us))
    ∷ ("park_spin_ns", int_field (λ c. c.park_spin_ns))
    ∷ ("token_grace_ns", int_field (λ c. c.token_grace_ns))
    ∷ ("default_mailbox_size", int_field (λ c. c.default_mailbox_size))
    ∷ ("dispatcher_queue_capacity", int_field (λ c. c.dispatcher_queue_capacity))
    ∷ ("dispatcher_high_watermark", int_field (λ c. c.dispatcher_high_watermark))
    ∷ ("supervisor_max_restarts", int_field (λ c. c.supervisor_max_restarts))
    ∷ ("supervisor_default_strategy", int_field (λ c. c.supervisor_default_strategy))
    ∷ ("dead_letter_queue_capacity", int_field (λ c. c.dead_letter_queue_capacity))
    ∷ ("log_flush_buffer_size", int_field (λ c. c.log_flush_buffer_size))
    ∷ ("memory_slab_size", int_field (λ c. c.memory_slab_size))
    ∷ ("memory_max_pool_alloc_size", int_field (λ c. c.memory_max_pool_alloc_size))
    ∷ ("memory_max_pools", int_field (λ c. c.memory_max_pools))
    ∷ ("memory_tls_batch_size", int_field (λ c. c.memory_tls_batch_size))
    ∷ ("message_inline_buffer_size", int_field (λ c. c.message_inline_buffer_size))
    ∷ ("enable_tick", bool_field (λ c. c.enable_tick))
    ∷ ("tick_interval_ms", int_field (λ c. c.tick_interval_ms))
    ∷ ("enable_monitor", bool_field (λ c. c.enable_monitor))
    ∷ ("monitor_socket_path", text_field (λ c. c.monitor_socket_path))
    ∷ ("monitor_poll_interval_ms", int_field (λ c. c.monitor_poll_interval_ms))
    ∷ ("monitor_recv_buffer_size", int_field (λ c. c.monitor_recv_buffer_size))
    ∷ ("monitor_backlog", int_field (λ c. c.monitor_backlog))
    ∷ ("enable_device_manager", bool_field (λ c. c.enable_device_manager))
    ∷ ("enable_metrics", bool_field (λ c. c.enable_metrics))
    ∷ ("epoll_max_events", int_field (λ c. c.epoll_max_events))
    ∷ ("epoll_wait_timeout_ms", int_field (λ c. c.epoll_wait_timeout_ms))
    ∷ ("enable_ipc_server", bool_field (λ c. c.enable_ipc_server))
    ∷ ("ipc_socket_path", text_field (λ c. c.ipc_socket_path))
    ∷ ("ipc_recv_buffer_size", int_field (λ c. c.ipc_recv_buffer_size))
    ∷ ("uds_backlog", int_field (λ c. c.uds_backlog))
    ∷ ("enable_dbus", bool_field (λ c. c.enable_dbus))
    ∷ ("dbus_bus_name", text_field (λ c. c.dbus_bus_name))
    ∷ ("dbus_object_path", text_field (λ c. c.dbus_object_path))
    ∷ ("dbus_interface_name", text_field (λ c. c.dbus_interface_name))
    ∷ ("enable_network_manager", bool_field (λ c. c.enable_network_manager))
    ∷ []

unfoldable pub content : RuntimeConfig → Field → Content
content c (int_field get) = int (get c)
content c (bool_field get) = bool (get c)
content c (text_field get) = text (get c)

-- The whole configuration, as a list of keys with what their fields hold.
unfoldable pub described : RuntimeConfig → List (String × Content)
unfolding content
described c = map (λ (kf : String × Field). (kf.0, content c kf.1)) fields

module _ (J : JsonLib) (j : J.Document) where
  -- What the document says of a key, or else what the field held.
  unfoldable pub int_of : String → ℕ → ℕ
  int_of key n = elim (J.find key j) [
    | none ↦ n
    | some v ↦ elim (J.get_int v) [ none ↦ n | some m ↦ m ]
  ]

  unfoldable pub bool_of : String → Bool → Bool
  bool_of key b = elim (J.find key j) [
    | none ↦ b
    | some v ↦ elim (J.get_bool v) [ none ↦ b | some a ↦ a ]
  ]

  unfoldable pub text_of : String → String → String
  text_of key t = elim (J.find key j) [
    | none ↦ t
    | some v ↦ elim (J.get_text v) [ none ↦ t | some u ↦ u ]
  ]

  unfoldable pub overlay : String × Content → String × Content
  unfolding int_of bool_of text_of
  overlay (key, int n) = (key, int (int_of key n))
  overlay (key, bool b) = (key, bool (bool_of key b))
  overlay (key, text t) = (key, text (text_of key t))

  -- Whether the value of a key, if there is one, converts to the type of the field.
  unfoldable pub fits : Setting → Bool
  fits (int_at key put) = elim (J.find key j) [
    | none ↦ true
    | some v ↦ elim (J.get_int v) [ none ↦ false | some n ↦ true ]
  ]
  fits (bool_at key put) = elim (J.find key j) [
    | none ↦ true
    | some v ↦ elim (J.get_bool v) [ none ↦ false | some b ↦ true ]
  ]
  fits (text_at key put) = elim (J.find key j) [
    | none ↦ true
    | some v ↦ elim (J.get_text v) [ none ↦ false | some t ↦ true ]
  ]

  unfoldable pub all_fit : List Setting → Bool
  unfolding fits
  all_fit [] = true
  all_fit (s ∷ ss) = fits s && all_fit ss

  -- A setting and a field with which it sets what is read.
  Lens : Setting → Field → Type 0
  Lens (int_at key put) (int_field get) = (c : RuntimeConfig) → put (get c) c ≡ c
  Lens (bool_at key put) (bool_field get) = (c : RuntimeConfig) → put (get c) c ≡ c
  Lens (text_at key put) (text_field get) = (c : RuntimeConfig) → put (get c) c ≡ c
  Lens _ _ = ⊥

  Lenses : List Setting → List (String × Field) → Type 0
  unfolding Lens
  Lenses [] [] = Unit
  Lenses (s ∷ ss) (kf ∷ kfs) = Lens s kf.1 × Lenses ss kfs
  Lenses _ _ = ⊥

  settle : Setting → Field → RuntimeConfig → RuntimeConfig
  unfolding int_of bool_of text_of
  settle (int_at key put) (int_field get) c = put (int_of key (get c)) c
  settle (bool_at key put) (bool_field get) c = put (bool_of key (get c)) c
  settle (text_at key put) (text_field get) c = put (text_of key (get c)) c
  settle _ _ c = c

  settle_all : List Setting → List (String × Field) → RuntimeConfig → RuntimeConfig
  unfolding settle
  settle_all (s ∷ ss) (kf ∷ kfs) c = settle_all ss kfs (settle s kf.1 c)
  settle_all _ _ c = c

  assign-settle :
      (s : Setting) (f : Field) (c : RuntimeConfig)
      → Lens s f
      → fits s ≡ true
      → assign J s j c ≡ some (settle s f c)
  unfolding assign convert key_of Lens settle fits int_of bool_of text_of
  assign-settle (int_at key put) (int_field get) c lens fit = ground (arith, lens c)
  assign-settle (bool_at key put) (bool_field get) c lens fit = ground (arith, lens c)
  assign-settle (text_at key put) (text_field get) c lens fit = ground (arith, lens c)
  assign-settle (int_at key put) (bool_field get) c lens fit = absurd lens
  assign-settle (int_at key put) (text_field get) c lens fit = absurd lens
  assign-settle (bool_at key put) (int_field get) c lens fit = absurd lens
  assign-settle (bool_at key put) (text_field get) c lens fit = absurd lens
  assign-settle (text_at key put) (int_field get) c lens fit = absurd lens
  assign-settle (text_at key put) (bool_field get) c lens fit = absurd lens

  load_settings-settle_all :
      (ss : List Setting) (kfs : List (String × Field)) (c : RuntimeConfig)
      → Lenses ss kfs
      → all_fit ss ≡ true
      → load_settings J ss j c ≡ settle_all ss kfs c
  unfolding load_settings settle_all Lenses all_fit
  load_settings-settle_all [] [] c lenses fit = refl
  load_settings-settle_all [] (kf ∷ kfs) c lenses fit = absurd lenses
  load_settings-settle_all (s ∷ ss) [] c lenses fit = absurd lenses
  load_settings-settle_all (s ∷ ss) (kf ∷ kfs) c lenses fit =
      let here : fits s ≡ true = ground arith in
      let rest : all_fit ss ≡ true = ground arith in
      rw (assign-settle s kf.1 c lenses.0 here, load_settings)
        (load_settings-settle_all ss kfs (settle s kf.1 c) lenses.1 rest)

  settings-Lenses : Lenses settings fields
  unfolding Lenses Lens
  settings-Lenses =
      (λ c. refl)
      also (λ c. refl)
      also (λ c. refl)
      also (λ c. refl)
      also (λ c. refl)
      also (λ c. refl)
      also (λ c. refl)
      also (λ c. refl)
      also (λ c. refl)
      also (λ c. refl)
      also (λ c. refl)
      also (λ c. refl)
      also (λ c. refl)
      also (λ c. refl)
      also (λ c. refl)
      also (λ c. refl)
      also (λ c. refl)
      also (λ c. refl)
      also (λ c. refl)
      also (λ c. refl)
      also (λ c. refl)
      also (λ c. refl)
      also (λ c. refl)
      also (λ c. refl)
      also (λ c. refl)
      also (λ c. refl)
      also (λ c. refl)
      also (λ c. refl)
      also (λ c. refl)
      also (λ c. refl)
      also (λ c. refl)
      also (λ c. refl)
      also (λ c. refl)
      also (λ c. refl)
      also (λ c. refl)
      also (λ c. refl)
      also (λ c. refl)
      also (λ c. refl)
      also (λ c. refl)
      also (λ c. refl)
      also tt

  -- If the values of all keys that the document has convert, then afterwards each field holds what the
  -- document says of its own key, and its default where the document lacks that key.
  pub load_from_file-described :
      (level : ℕ)
      → all_fit settings ≡ true
      → described (load_from_file J level (holds j))
        ≡ map overlay (described (default_config level))
  unfolding load_from_file described content settle_all settle overlay default_config
  load_from_file-described level fit =
      ap described
        (load_settings-settle_all settings fields (default_config level) settings-Lenses fit)
