-- ===== src/Compress/Sound.antt =====
-- Compression is sound: the invariant of the context, and what a successful emission spells.
pub mod Steps
pub mod Put
pub mod Pending
pub mod Loop
pub mod Names
use simple_dns.Common.{
  ℕ, ◌+◌, ◌*◌, ◌≤◌, ◌<◌, Bool, true, List, [], ◌∷◌, ◌++◌, Bytes, length, All, ◌⊎◌, inl, inr, ◌≡◌,
  arith,
}
use simple_dns.Common.Memory.{Outcome, ok, err, fault}
use simple_dns.Common.Text.{strcase_eq}
use simple_dns.Common.Text.Split.{join, IsToken}
use simple_dns.Common.Text.Case.{is_dot}
use simple_dns.Compress.{Entry, Context}
use simple_dns.Compress.Spells.{Spells, Spells-append, end_of, end_of-Spells-append}

-- The message spells, at `o`, labels that differ from `text` in case only; `extra` says how many
-- rounds more than two for each label the reading takes.
pub record Spelled (msg : Bytes) (o : ℕ) (text : Bytes) (extra : ℕ) : Type 0 where
  pub rounds : ℕ
  pub labels : List Bytes
  pub spells : Spells msg rounds o labels
  pub tokens_only : All (IsToken is_dot) labels
  pub same : strcase_eq (join b'.' labels) text ≡ true
  pub bound : rounds ≤ 2 * length labels + extra

-- An entry of the context that can be pointed to.
pub record IsValid (msg : Bytes) (e : Entry) : Type 0 where
  pub spelled : Spelled msg e.offset e.name 1
  pub low : e.offset < 0x4000

abbrev pub AllValid : Bytes → Context → Type 0
AllValid msg = All (IsValid msg)

pub Spelled-append :
    {msg : Bytes} (more : Bytes) {o : ℕ} {text : Bytes} {extra : ℕ}
    → Spelled msg o text extra
    → Spelled (msg ++ more) o text extra
Spelled-append more s = record {
  rounds = s.rounds;
  labels = s.labels;
  spells = Spells-append more s.spells;
  tokens_only = s.tokens_only;
  same = s.same;
  bound = s.bound;
}

pub end_of-Spelled-append :
    {msg : Bytes} (more : Bytes) {o : ℕ} {text : Bytes} {extra : ℕ} (s : Spelled msg o text extra)
    → end_of (Spelled-append more s).spells ≡ end_of s.spells
unfolding Spelled-append
end_of-Spelled-append more s = end_of-Spells-append more s.spells

pub IsValid-append :
    {msg : Bytes} (more : Bytes) {e : Entry} → IsValid msg e → IsValid (msg ++ more) e
IsValid-append more v = record { spelled = Spelled-append more v.spelled; low = v.low }

-- What a call of the loop makes of a message and of the memory behind it. `P` holds of the entries
-- that are not valid yet, `size` is that of the memory, and `need` what the text takes uncompressed.
abbrev pub Emits :
    (Entry → Type 0) → Bytes → Bytes → ℕ → ℕ → ℕ → Context × Outcome (Bytes × ℕ) → Type 0
Emits P msg text size blen need (ctx, ok (buf, n)) =
    (w : Bytes) × (tail : Bytes) × (buf ≡ (msg ++ w) ++ tail)
    × (n ≡ length (msg ++ w))
    × (length buf ≡ size)
    × (length w ≤ need)
    × (s : Spelled (msg ++ w) (length msg) text 2) × (end_of s.spells ≡ length (msg ++ w))
    × All (λ e. IsValid (msg ++ w) e ⊎ P e) ctx
Emits P msg text size blen need (ctx, err) = blen < length msg + need
Emits P msg text size blen need (ctx, fault) = ⊥
