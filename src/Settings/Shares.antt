-- ===== src/Settings/Shares.antt =====
-- The processes that share the settings: those that started, and have not quit, in any order.
use darkui.Base.{
  ℕ, zero, suc, ◌+◌, ◌<◌, ◌≡◌, ◌↔◌, refl, ap, sym, ◌∙◌, inl, inr, Bool, true, false, List, [], ◌∷◌,
  ◌++◌, Option, none, some, arith, if◌then◌else◌, Bool-cases, Option-cases,
}
use darkui.CString.{Bytes}
use darkui.Settings.{
  Shared, Calls, has_size, ready, ready_rounds, init_settings_core, quit_settings_core,
}

-- The client comes to its `mmap` where the object has its size in one of the rounds.
pub ready_iff :
    (sizes : ℕ → Option ℕ) (size i left : ℕ)
    → (ready sizes size i left ≡ true)
      ↔ ((k : ℕ) × (k < left) × (has_size size (sizes (i + k)) ≡ true))
unfolding ready
ready_iff sizes size i zero = ((λ e. absurd cc), λ (k, below, e). absurd (omega arith))
ready_iff sizes size i (suc left) = (
  λ h. elim (Bool-cases (has_size size (sizes i))) [
    | inl t ↦ (0, omega arith, ap (λ k. has_size size (sizes k)) {x = i + 0} (omega arith) ∙ t)
    | inr f ↦
        let (k, below, e) = (ready_iff sizes size (suc i) left).0 (rw f at h) in
        (
          suc k,
          omega (arith, below),
          ap (λ k. has_size size (sizes k)) {x = i + suc k} {y = suc i + k} (omega arith) ∙ e,
        )
  ],
  λ (k, below, e). elim (Bool-cases (has_size size (sizes i))) [
    | inl t ↦ rw t refl
    | inr f ↦ rw f ((ready_iff sizes size (suc i) left).1 (later k below e f))
  ],
)
  where
    later :
        (k : ℕ)
        → k < suc left
        → has_size size (sizes (i + k)) ≡ true
        → has_size size (sizes i) ≡ false
        → (k : ℕ) × (k < left) × (has_size size (sizes (suc i + k)) ≡ true)
    later zero below e f =
        absurd (ground (arith, ap (λ k. has_size size (sizes k)) {x = i + 0} {y = i} (omega arith)))
    later (suc k) below e f = (
      k,
      omega (arith, below),
      ap (λ k. has_size size (sizes k)) {x = suc i + k} {y = i + suc k} (omega arith) ∙ e,
    )

-- the processes that have the block, each with `is_host`
abbrev pub Processes : Type 0
Processes = List Bool

pub hosts : Processes → ℕ
hosts [] = 0
hosts (true ∷ processes) = suc (hosts processes)
hosts (false ∷ processes) = hosts processes

abbrev pub held : Option Bytes → ℕ
held none = 0
held (some block) = 1

-- One process starts, is aborted at its start, or quits.
pub data Step (default_settings : Bytes) (size : ℕ) (userdata_path : Option Bytes)
    : Shared → Processes → Shared → Processes → Type 0 where
  starts :
      (calls : Calls) (shared : Shared) (processes : Processes) (is_host : Bool)
      → (init_settings_core default_settings size userdata_path calls shared).0 ≡ some is_host
      → Step default_settings size userdata_path shared processes
          (init_settings_core default_settings size userdata_path calls shared).1
          (is_host ∷ processes)
  aborts :
      (calls : Calls) (shared : Shared) (processes : Processes)
      → (init_settings_core default_settings size userdata_path calls shared).0 ≡ none
      → Step default_settings size userdata_path shared processes
          (init_settings_core default_settings size userdata_path calls shared).1
          processes
  quits :
      (shared : Shared) (before after : Processes) (is_host : Bool)
      → Step default_settings size userdata_path shared
          (before ++ is_host ∷ after)
          (quit_settings_core is_host shared)
          (before ++ after)

pub data Reaches (default_settings : Bytes) (size : ℕ) (userdata_path : Option Bytes)
    : Shared → Processes → Shared → Processes → Type 0 where
  stays :
      (shared : Shared) (processes : Processes)
      → Reaches default_settings size userdata_path shared processes shared processes
  then_step :
      {a b c : Shared} {p q r : Processes}
      → Reaches default_settings size userdata_path a p b q
      → Step default_settings size userdata_path b q c r
      → Reaches default_settings size userdata_path a p c r

-- the hosts with the process that started
added : Option Bool → ℕ → ℕ
added none n = n
added (some is_host) n = if is_host then suc n else n

init_settings_core-held :
    (default_settings : Bytes) (size : ℕ) (userdata_path : Option Bytes) (calls : Calls)
    (shared : Shared)
    → let made = init_settings_core default_settings size userdata_path calls shared in
      held made.1.block ≡ added made.0 (held shared.block)
unfolding init_settings_core added
init_settings_core-held default_settings size none calls shared = refl
init_settings_core-held default_settings size (some userdata) calls shared =
    elim (Bool-cases calls.opens) [
      | inr u ↦ rw u refl
      | inl u ↦ elim (Option-cases shared.block) [
        | inl n ↦ elim (Bool-cases calls.truncates) [
          | inr v ↦ rw (u, n, v) (ap held n)
          | inl v ↦ elim (Bool-cases calls.maps) [
            | inr w ↦ rw (u, n, v, w) (ap held n)
            | inl w ↦ rw (u, n, v, w) refl
          ]
        ]
        | inr (block, e) ↦ elim (Bool-cases (ready calls.sizes size 0 ready_rounds)) [
          | inr v ↦ rw (u, e, v) (ap held e)
          | inl v ↦ elim (Bool-cases calls.maps) [
            | inr w ↦ rw (u, e, v, w) (ap held e)
            | inl w ↦ rw (u, e, v, w) (ap held e)
          ]
        ]
      ]
    ]

hosts-quits :
    (before after : Processes) (is_host : Bool)
    → hosts (before ++ is_host ∷ after) ≡ added (some is_host) (hosts (before ++ after))
unfolding hosts added
hosts-quits [] after true = refl
hosts-quits [] after false = refl
hosts-quits (true ∷ before) after true = ap suc (hosts-quits before after true)
hosts-quits (true ∷ before) after false = ap suc (hosts-quits before after false)
hosts-quits (false ∷ before) after is_host = hosts-quits before after is_host

held-quit_settings_core :
    (is_host : Bool) (shared : Shared) (others : ℕ)
    → added (some is_host) others ≡ held shared.block
    → others ≡ held (quit_settings_core is_host shared).block
unfolding quit_settings_core added
held-quit_settings_core false shared others e = e
held-quit_settings_core true shared others e = elim (Option-cases shared.block) [
  | inl n ↦ absurd (omega (arith, e, ap held n))
  | inr (block, s) ↦ omega (arith, e, ap held s)
]

Step-held :
    {default_settings : Bytes} {size : ℕ} {userdata_path : Option Bytes} {a b : Shared}
    {p q : Processes}
    → Step default_settings size userdata_path a p b q
    → hosts p ≡ held a.block
    → hosts q ≡ held b.block
unfolding hosts added
Step-held {default_settings} {size} {userdata_path} (starts calls shared processes is_host made) e =
    hosts-quits [] processes is_host
    ∙ ap (added (some is_host)) e
    ∙ ap (λ r. added r (held shared.block)) (sym made)
    ∙ sym (init_settings_core-held default_settings size userdata_path calls shared)
Step-held {default_settings} {size} {userdata_path} (aborts calls shared processes made) e =
    e
    ∙ ap (λ r. added r (held shared.block)) (sym made)
    ∙ sym (init_settings_core-held default_settings size userdata_path calls shared)
Step-held (quits shared before after is_host) e =
    held-quit_settings_core is_host shared (hosts (before ++ after))
      (sym (hosts-quits before after is_host) ∙ e)

Reaches-held :
    {default_settings : Bytes} {size : ℕ} {userdata_path : Option Bytes} {a b : Shared}
    {p q : Processes}
    → Reaches default_settings size userdata_path a p b q
    → hosts p ≡ held a.block
    → hosts q ≡ held b.block
Reaches-held (stays shared processes) e = e
Reaches-held (then_step before step) e = Step-held step (Reaches-held before e)

-- In whatever order processes start, are aborted and quit, from none that has the block: there is
-- one host exactly while the shared object exists, and no host while it does not.
pub Reaches-hosts :
    {default_settings : Bytes} {size : ℕ} {userdata_path : Option Bytes} {a b : Shared}
    {q : Processes}
    → a.block ≡ none
    → Reaches default_settings size userdata_path a [] b q
    → hosts q ≡ held b.block
unfolding hosts
Reaches-hosts n reached = Reaches-held reached (sym (ap held n))
