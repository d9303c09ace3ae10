-- ===== src/Terminal/Tests.antt =====
-- The command `cd ..` typed in "space/user", and the theorems there.
use trs.Common.{
  ℕ, ◌+◌, ◌*◌, ◌≤◌, ◌<◌, ◌≡◌, refl, arith, ◌⊎◌, inr, Bool, true, false, not, ◌&&◌, ◌==◌, ltb, List,
  [], ◌∷◌, length, some, pos,
}
use trs.Common.Memory.{Mem, store_list}
use trs.Common.Texts.{codes}
use trs.Fat32.{FatDir}
use trs.Sys.{Sys, DirInfo}
use trs.Libc.Text.Spec.{IsText}
use trs.Terminal.{Image, current_size, args_loop, cd}
use trs.Terminal.Words.{words, Cuts}
use trs.Terminal.Words.Cut.{args_loop-Cuts}
use trs.Terminal.Current.{target_of, rooted, Leads}
use trs.Terminal.Current.Target.{cd_lem}
use trs.Terminal.Commands.{Frame, command_parser}
use trs.Terminal.Commands.Change.{IsLinked, AreLinked, command_parser-Leads}

-- Whether a text stands at an address.
abbrev has_text : Mem → ℕ → List ℕ → Bool
has_text m a [] = m a == 0
has_text m a (x ∷ xs) = m a == x && not (x == 0) && has_text m (a + 1) xs

has_text-IsText : (m : Mem) (a : ℕ) (xs : List ℕ) → has_text m a xs ≡ true → IsText m a xs
has_text-IsText m a [] h = ground arith
has_text-IsText m a (x ∷ xs) h =
    (ground arith, ground arith, has_text-IsText m (a + 1) xs (ground arith))

-- A literal stands where its bytes, read as a number, say.
abbrev place : List ℕ → ℕ
place [] = 0
place (x ∷ xs) = x + 256 * place xs

abbrev image : Image
image = record { current = 1000; literal = λ t. 10000 + 16 * place t }

abbrev frame : Frame
frame = record { path = 3000; dir = 3200; info = 3300; inf = 3400; command = 2000 }

abbrev linked_texts : List (List ℕ) → Mem → Mem
linked_texts [] m = m
linked_texts (t ∷ ts) m = store_list (linked_texts ts m) (image.literal t) t

abbrev typed : List ℕ
typed = codes "cd  .."

abbrev start_path : List ℕ
start_path = codes "space/user"

abbrev memory : Mem
memory =
    store_list
      (store_list
        (linked_texts
          (codes "view"
            ∷ codes "clr"
            ∷ codes "pwd"
            ∷ codes "wh"
            ∷ codes "cd"
            ∷ codes ".."
            ∷ codes "/"
            ∷ [])
          (λ a. 0))
        1000 start_path)
      2000 typed

two_words : words 16 typed ≡ codes "cd" ∷ codes ".." ∷ []
unfolding words
two_words = refl

typed-IsText : IsText memory 2000 typed
unfolding store_list
typed-IsText = has_text-IsText memory 2000 typed refl

start-IsText : IsText memory 1000 start_path
unfolding store_list
start-IsText = has_text-IsText memory 1000 start_path refl

args_loop-Cuts_example : Cuts memory 2000 6 (words 16 typed) [] (args_loop 16 256 memory 2000 [])
args_loop-Cuts_example = args_loop-Cuts 16 256 memory 2000 typed [] typed-IsText (omega arith)

slash_linked : IsLinked image memory 2000 6 (codes "/")
unfolding store_list
slash_linked = record {
  text = has_text-IsText memory (image.literal (codes "/")) (codes "/") refl;
  apart = inr (omega arith);
  clear = inr (omega arith);
}

linked : (t : List ℕ) → has_text memory (image.literal t) t ≡ true → IsLinked image memory 2000 6 t
linked t h = record {
  text = has_text-IsText memory (image.literal t) t h;
  apart = inr (omega arith);
  clear = inr (omega arith);
}

all_linked : AreLinked image memory 2000 6
unfolding store_list
all_linked = record {
  view = linked (codes "view") refl;
  clr = linked (codes "clr") refl;
  pwd = linked (codes "pwd") refl;
  wh = linked (codes "wh") refl;
  cd = linked (codes "cd") refl;
  up = linked (codes "..") refl;
  slash = linked (codes "/") refl;
}

upwards : target_of start_path (codes "..") ≡ codes "space"
upwards = refl

below_user : target_of start_path (codes "a") ≡ codes "space/user/a"
below_user = refl

cd_lem_example :
    (r : Mem) × (cd 256 image (image.literal (codes "pwd")) memory
      ≡ some (r, rooted (codes "pwd") && not (ltb 3 current_size)))
    × Leads image memory (target_of start_path (codes "pwd")) (some r)
cd_lem_example =
    cd_lem 256 image (omega arith) (omega arith) memory (image.literal (codes "pwd")) start_path
      (codes "pwd") start-IsText (omega arith) all_linked.pwd.text (inr (omega arith)) (omega arith)
      all_linked.slash.text all_linked.slash.clear all_linked.up.text

abbrev no_disk : FatDir ℕ ℕ DirInfo
no_disk = record {
  zeroed = 0;
  fat_dir_open = λ d path f. record { result = pos 1; dir = 0; fat = f };
  fat_dir_next = λ d f. record { result = pos 1; dir = d; fat = f };
  fat_dir_read = λ d f. record {
    result = (pos 1, record { name = []; name_len = 0; size = 0; attr = 0 });
    dir = d;
    fat = f;
  };
}

abbrev no_text : Mem → ℕ → List ℕ
no_text m a = []

abbrev terminal : Sys ℕ ℕ
terminal = record {
  regs = record { rax = 0; rdx = 0; rdi = 0 };
  mem = memory;
  display = [];
  driver = record { disk_id = 0; base_lba = 0; mounted = false; dirs = []; fat = 0 };
}

command_parser-Leads_example :
    (t : Sys ℕ ℕ) × (command_parser no_disk no_text 256 image frame 2000 terminal ≡ some t)
    × IsText t.mem 1000 (target_of start_path (codes ".."))
    × (length (target_of start_path (codes "..")) < current_size)
    × ((a : ℕ)
        → (a < 1000) ⊎ (1000 + current_size ≤ a)
        → (a < 2000) ⊎ (2000 + length typed ≤ a)
        → t.mem a ≡ memory a)
command_parser-Leads_example =
    command_parser-Leads no_disk no_text 256 image frame terminal 2000 typed start_path (codes "..")
      [] (omega arith) (omega arith) (omega arith) (omega arith) typed-IsText two_words all_linked
      start-IsText (omega arith) (inr (omega arith))
