-- ===== src/Kernel/NewFileExample.antt =====
-- Three concrete lines at an empty volume.
use pios_private.Base.{◌≡◌, refl, arith, some, [], ◌∷◌, ◌++◌, map}
use pios_private.Mem.{Bytes, zeros, literal, codes, get16}
use pios_private.Mem.Text.{IsText}
use pios_private.Clib.{toupper}
use pios_private.Fat.State.{cluster}
use pios_private.Fat.Sample.{locals, greeting, locals-IsClean, locals-IsCleanIo}
use pios_private.Fat.Create.Empty.{fs, fs-HasLayout, fs-HasRoom}
use pios_private.Parse.Rows.{fields}
use pios_private.Command.{Scratch, says_text}
use pios_private.Kernel.{Kernel, kernel_round}
use pios_private.Kernel.Steps.{IsReady}
use pios_private.Kernel.EchoCat.{IsLine}
use pios_private.Kernel.NewFile.{kernel_round-touch-echo-cat}

abbrev kernel : Kernel
kernel = record {
  shell = record {
    fs = fs;
    parse_arguments = zeros;
    working_directory = literal "/";
    console = [];
  };
  buffer = zeros;
  input =
      codes "touch new"
      ++ 10 ∷ (codes "echo \"hi all\" > new" ++ 10 ∷ (codes "cat new" ++ 10 ∷ []));
}

kernel-IsReady : IsReady kernel
kernel-IsReady = record { layout = fs-HasLayout; arguments = λ j lt. refl; line = λ j lt. refl }

abbrev scratch : Scratch
scratch = record { locals = locals; temp_file = greeting; buffer = λ j. 1 }

touch_input-IsLine : IsLine (codes "touch new")
unfolding fields
touch_input-IsLine = record {
  no_newline = ground arith;
  no_nul = ground arith;
  fits = omega arith;
  few = omega arith;
}

echo_input-IsLine : IsLine (codes "echo \"hi all\" > new")
unfolding fields
echo_input-IsLine = record {
  no_newline = ground arith;
  no_nul = ground arith;
  fits = omega arith;
  few = omega arith;
}

cat_input-IsLine : IsLine (codes "cat new")
unfolding fields
cat_input-IsLine = record {
  no_newline = ground arith;
  no_nul = ground arith;
  fits = omega arith;
  few = omega arith;
}

kernel_round-touch-echo-cat_example :
    (k₁ : Kernel) × (k₂ : Kernel) × (k₃ : Kernel) × (r : Bytes) × (kernel_round 200 9 scratch kernel
      ≡ some k₁)
    × (kernel_round 200 10 scratch k₁ ≡ some k₂)
    × (kernel_round 200 9 scratch k₂ ≡ some k₃)
    × (k₃.input ≡ [])
    × (k₃.shell.console
        ≡ says_text "%s\n" r ∷ says_text "%s> " k₂.shell.working_directory ∷ k₂.shell.console)
    × IsText r (codes "hi all")
unfolding fields cluster get16
kernel_round-touch-echo-cat_example =
    kernel_round-touch-echo-cat 200 9 (omega arith) b'n' (codes "ew") (omega arith) (ground arith)
      (ground arith) scratch scratch scratch kernel (codes "touch new")
      (codes "echo \"hi all\" > new") (codes "cat new") [] 0 2 b't' b'e' b'c' b'h' (codes "i all")
      [] kernel-IsReady touch_input-IsLine echo_input-IsLine cat_input-IsLine refl locals-IsClean
      locals-IsClean locals-IsCleanIo (λ e. absurd (omega (arith, e))) locals-IsClean (omega arith)
      refl refl (omega arith) refl refl refl refl (omega arith) refl refl
      (fs-HasRoom (map toupper (codes "ew"))) refl
