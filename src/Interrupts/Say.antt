-- ===== src/Interrupts/Say.antt =====
-- What `sh_printf` does to the kernel's shell, where its format and arguments stand for a text.
use drupe.Base.{◌>>=◌, ℕ, ◌≡◌, refl, ap, ◌∙◌, some, List}
use drupe.Shell.{sh_puts}
use drupe.Shell.Render.{sh_puts-stdin}
use drupe.Shell.Print.{Arg}
use drupe.Shell.Print.Format.{formatted, after, sh_printf-eq-puts}
use drupe.Interrupts.{Kernel, say}

abbrev pub told : Kernel → List ℕ → Kernel
told k text = record k { shell = sh_puts k.shell text }

pub say-formatted :
    (k : Kernel) (fmt : List ℕ) (args : List Arg) (text : List ℕ)
    → formatted fmt args ≡ some text
    → say k fmt args ≡ some (told k text)
unfolding say
say-formatted k fmt args text h =
    ap (λ o. o >>= λ sh. some (record k { shell = sh }))
      (sh_printf-eq-puts fmt args k.shell ∙ ap (after k.shell) h)

pub say-some :
    (k : Kernel) (fmt : List ℕ) (args : List Arg) (text : List ℕ)
    → formatted fmt args ≡ some text
    → (k' : Kernel) × (say k fmt args ≡ some k')
say-some k fmt args text h = (told k text, say-formatted k fmt args text h)

-- the memory and stdin are as they were
pub record Keeps (k k' : Kernel) : Type 0 where
  pub memory : k'.memory ≡ k.memory
  pub input : k'.shell.stdin ≡ k.shell.stdin

pub told-Keeps : (k : Kernel) (text : List ℕ) → Keeps k (told k text)
told-Keeps k text = record { memory = refl; input = sh_puts-stdin k.shell text }

pub Keeps-trans : {k k' k'' : Kernel} → Keeps k k' → Keeps k' k'' → Keeps k k''
Keeps-trans a b = record { memory = b.memory ∙ a.memory; input = b.input ∙ a.input }

pub say-Keeps :
    (k : Kernel) (fmt : List ℕ) (args : List Arg) (text : List ℕ)
    → formatted fmt args ≡ some text
    → (k' : Kernel) × (say k fmt args ≡ some k') × Keeps k k'
say-Keeps k fmt args text h = (told k text, say-formatted k fmt args text h, told-Keeps k text)
