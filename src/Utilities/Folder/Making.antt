-- ===== src/Utilities/Folder/Making.antt =====
-- create_folder and delete_folder of Utilities/Folder.cpp over a file system, which is a parameter: what
-- exists, create_directories and remove_all of std::filesystem do, with the messages of their error codes.
use cpp_toolkit.Prelude.{
  ℕ, ◌-◌, ◌^◌, ◌≡◌, refl, Bool, true, false, not, none, some, codes, if◌then◌else◌, ◌==◌, nat_eq,
  is_empty,
}
use cpp_toolkit.Utilities.File.{Text, Outcome}

pub record FileSystem {ℓ} (World : Type ℓ) : Type ℓ where
  pub exists : Text → World → Bool
  pub create_directories : Text → World → World × Bool × Text
  pub remove_all : Text → World → World × ℕ × Text

module _ {ℓ} {World : Type ℓ} (system : FileSystem World) where
  unfoldable pub create_folder : Text → World → World × Outcome
  create_folder target_path world =
      if is_empty target_path
      then (world, (false, some (codes "target path is empty")))
      else if system.exists target_path world
      then (world, (false, some (codes "target folder already exists")))
      else (let (world', created, message) = system.create_directories target_path world in
          if not created then (world', (false, some message)) else (world', (true, none)))

  unfoldable pub delete_folder : Text → World → World × Outcome
  delete_folder target_path world =
      if is_empty target_path
      then (world, (false, some (codes "target path is empty")))
      else if not (system.exists target_path world)
      then (world, (false, some (codes "there is no target folder")))
      else (let (world', deleted_count, message) = system.remove_all target_path world in
          if deleted_count == 0 then (world', (false, some message)) else (world', (true, none)))

  -- remove_all tells of an error by the largest uintmax_t: delete_folder takes it for a success.
  pub delete_folder_unnoticed :
      (target_path : Text) (world after : World) (message : Text)
      → is_empty target_path ≡ false
      → system.exists target_path world ≡ true
      → system.remove_all target_path world ≡ (after, 2 ^ 64 - 1, message)
      → delete_folder target_path world ≡ (after, (true, none))
  unfolding delete_folder
  delete_folder_unnoticed target_path world after message full there fails =
      rw (full, there, fails) refl
