-- ===== src/Keyboard/Queue.antt =====
-- The ring of drivers/keyboard.c as a queue of at most 255 characters.
use ovsb_mk.Base.{
  ℕ, zero, suc, ◌+◌, ◌-◌, ◌%◌, ◌<◌, ◌≡◌, ◌≢◌, refl, ap, List, [], ◌∷◌, ◌++◌, some, arith, ltb,
  if◌then◌else◌, get_or, set, length, length-set, get_or-set_self, get_or-set_ne,
}
use ovsb_mk.Keyboard.{Keyboard, kbuf_put, read_round, read_buffered}

pub record IsValid (k : Keyboard) : Type 0 where
  pub storage : length k.buffer ≡ 256
  pub head_in : k.head < 256
  pub tail_in : k.tail < 256

-- The `n` characters from index `t` on, going round at 256.
abbrev pub queued : List ℕ → ℕ → ℕ → List ℕ
queued buf t zero = []
queued buf t (suc n) = get_or buf t 0 ∷ queued buf ((t + 1) % 256) n

-- How many characters wait.
abbrev pub waiting : Keyboard → ℕ
waiting k = (k.head + 256 - k.tail) % 256

-- The characters that wait, oldest first.
abbrev pub contents : Keyboard → List ℕ
contents k = queued k.buffer k.tail (waiting k)

pub length-queued : (buf : List ℕ) (t n : ℕ) → length (queued buf t n) ≡ n
length-queued buf t zero = refl
length-queued buf t (suc n) = ap suc (length-queued buf ((t + 1) % 256) n)

-- A write just past the waiting characters adds one to them.
queued-set :
    (buf : List ℕ) (c t n i : ℕ)
    → length buf ≡ 256
    → t < 256
    → n < 256
    → i ≡ (t + n) % 256
    → queued (set buf i c) t (suc n) ≡ queued buf t n ++ (c ∷ [])
queued-set buf c t zero i full ht hn e = ground (arith, get_or-set_self buf i c 0)
queued-set buf c t (suc n) i full ht hn e =
    ground (arith, get_or-set_ne buf i t c 0, queued-set buf c ((t + 1) % 256) n i full)

queued_of_pos :
    (buf : List ℕ) (t n : ℕ)
    → n ≢ 0
    → queued buf t n ≡ get_or buf t 0 ∷ queued buf ((t + 1) % 256) (n - 1)
queued_of_pos buf t zero h = absurd (h refl)
queued_of_pos buf t (suc n) h = ap (λ m. queued buf t (suc m)) (omega arith)

pub kbuf_put-IsValid : (k : Keyboard) (c : ℕ) → IsValid k → IsValid (kbuf_put k c)
unfolding kbuf_put
kbuf_put-IsValid k c v = ground (arith, length-set k.buffer k.head c)

-- In a valid ring `kbuf_put` puts a character behind those that wait, unless 255 wait already:
-- then it is dropped.
pub kbuf_put-queue :
    (k : Keyboard) (c : ℕ)
    → IsValid k
    → contents (kbuf_put k c)
      ≡ (if ltb (length (contents k)) 255 then contents k ++ (c ∷ []) else contents k)
unfolding kbuf_put
kbuf_put-queue k c v = ground (
  arith,
  length-queued k.buffer k.tail (waiting k),
  queued-set k.buffer c k.tail (waiting k) k.head v.storage v.tail_in,
)

-- On a valid ring in which a character waits, a round of the reading loop returns the oldest one
-- and leaves the others.
pub read_round-queue :
    (now : ℕ) (k : Keyboard) (c : ℕ) (q : List ℕ)
    → IsValid k
    → contents k ≡ c ∷ q
    → let (out, k') = read_round now k in (out ≡ some c) × (contents k' ≡ q)
unfolding read_round read_buffered
read_round-queue now k c q v e = ground (arith, queued_of_pos k.buffer k.tail (waiting k))
