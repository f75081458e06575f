-- ===== src/Compiler/Blocks/Post.antt =====
-- What holds of the result of lib/compiler.c's functions unless they panic.
use chammer.Prelude.{Option, none, some}
use chammer.Compiler.Blocks.{◌>>?◌}

abbrev pub Unless : {A : Type 0} → (A → Type 0) → Option A → Type 0
Unless Q none = Unit
Unless Q (some a) = Q a

pub data Post {A : Type 0} (Q : A → Type 0) (o : Option A) : Type 0 where
  post : Unless Q o → Post Q o

pub unless : {A : Type 0} {Q : A → Type 0} {o : Option A} → Post Q o → Unless Q o
unless (post h) = h

pub bind-Post :
    {A B : Type 0} {Q : A → Type 0} {R : B → Type 0} {o : Option A} {f : A → Option B}
    → Post Q o
    → ((a : A) → Q a → Post R (f a))
    → Post R (o >>? f)
bind-Post {o = none} p k = post tt
bind-Post {o = some a} (post h) k = k a h

-- Where nothing is known of what is handed on.
pub any-Post :
    {A B : Type 0} {R : B → Type 0} (o : Option A) {f : A → Option B}
    → ((a : A) → Post R (f a))
    → Post R (o >>? f)
any-Post none k = post tt
any-Post (some a) k = k a

pub mono-Post :
    {A : Type 0} {Q R : A → Type 0} {o : Option A} → Post Q o → ((a : A) → Q a → R a) → Post R o
mono-Post {o = none} p k = post tt
mono-Post {o = some a} (post h) k = post (k a h)
