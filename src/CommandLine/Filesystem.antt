-- ===== src/CommandLine/Filesystem.antt =====
-- Lab_7/WIN/filesystem.hpp and main.cpp: the class that `handle_user_input` calls, and the whole
-- program.
use labs_spo.Common.{◌≡◌, refl, Bool, true, false, List, Option}
use labs_spo.Common.Bytes.{Bytes}
use labs_spo.CommandLine.{UserInputType, Action, show_help, calls, handle_user_input}

-- `filesystem`: the stream on the medium, with its bytes if the file could be opened.
pub record Filesystem : Type 0 where
  pub file : Option Bytes

-- The methods.
dir : List Bytes → Filesystem → Filesystem
dir args fs = fs

cd : List Bytes → Filesystem → Filesystem
cd args fs = fs

print : List Bytes → Filesystem → Filesystem
print args fs = fs

mkdir : List Bytes → Filesystem → Filesystem
mkdir args fs = fs

createnew : List Bytes → Filesystem → Filesystem
createnew args fs = fs

rd : List Bytes → Filesystem → Filesystem
rd args fs = fs

del : List Bytes → Filesystem → Filesystem
del args fs = fs

rename : List Bytes → Filesystem → Filesystem
rename args fs = fs

-- The method that a command stands for.
call : UserInputType → List Bytes → Filesystem → Filesystem
unfolding dir cd print mkdir createnew rd del rename
call UserInputType.help args fs = fs
call UserInputType.dir args fs = dir args fs
call UserInputType.cd args fs = cd args fs
call UserInputType.print args fs = print args fs
call UserInputType.mkdir args fs = mkdir args fs
call UserInputType.createnew args fs = createnew args fs
call UserInputType.rd args fs = rd args fs
call UserInputType.del args fs = del args fs
call UserInputType.rename args fs = rename args fs

-- Whether the help text is printed, and the file system behind the call.
perform : Action → Filesystem → Bool × Filesystem
unfolding call
perform show_help fs = (true, fs)
perform (calls type args) fs = (false, call type args fs)

-- `main`, given `argv` behind the program's name and the medium.
program : List Bytes → Option Bytes → Bool × Filesystem
program argv medium = perform (handle_user_input argv) (record { file = medium })

call-keeps : (type : UserInputType) (args : List Bytes) (fs : Filesystem) → call type args fs ≡ fs
unfolding call
call-keeps UserInputType.help args fs = refl
call-keeps type args fs = refl

-- Whatever the command line says, the medium stays as it was.
program-keeps :
    (argv : List Bytes) (medium : Option Bytes) → (program argv medium).1 ≡ record { file = medium }
unfolding program perform
program-keeps argv medium =
    elim (handle_user_input argv)
      as (λ action. (perform action (record { file = medium })).1 ≡ record { file = medium }) [
        | show_help ↦ refl
        | calls type args ↦ call-keeps type args (record { file = medium })
      ]
