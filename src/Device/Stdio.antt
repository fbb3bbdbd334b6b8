-- ===== src/Device/Stdio.antt =====
-- The streams of the C library and its allocator, as arguments of the model like the system calls.
use deadflash.Base.{ℕ, ◌≡◌, Bool, true, Option, some, List, [], ◌++◌}
use deadflash.Device.Posix.{Os, Laws}

pub record Stdio (os : Os) : Type 0 where
  -- fopen for reading, with the bytes that the stream gives; `none` where it cannot be opened
  pub read_text : List ℕ → os.World → Option (List ℕ) × os.World
  -- fopen for writing, fprintf of a text, fflush, fclose and remove, by the path
  pub create : List ℕ → os.World → Bool × os.World
  pub print : List ℕ → List ℕ → os.World → Bool × os.World
  pub fflush : List ℕ → os.World → Bool × os.World
  pub fclose : List ℕ → os.World → Bool × os.World
  pub remove : List ℕ → os.World → os.World
  pub malloc : ℕ → os.World → Bool × os.World

-- Reading a text and an allocation change no file.
pub record StdioLaws (os : Os) (laws : Laws os) (stdio : Stdio os) : Type 0 where
  pub read_text_content :
      (g : ℕ) (path : List ℕ) (w : os.World)
      → laws.content g (stdio.read_text path w).1 ≡ laws.content g w
  pub malloc_content :
      (g n : ℕ) (w : os.World) → laws.content g (stdio.malloc n w).1 ≡ laws.content g w

-- What a stream holds, and what the file at its path holds: a stream that was created there holds what was
-- printed since, and still does after a flush that succeeds; once it is closed with success the file holds
-- it, which reading gives back. Closing a descriptor changes no such file.
pub record TextLaws (os : Os) (stdio : Stdio os) : Type 0 where
  pub text : List ℕ → os.World → List ℕ
  pub file : List ℕ → os.World → List ℕ
  pub text_create :
      (path : List ℕ) (w w' : os.World) → stdio.create path w ≡ (true, w') → text path w' ≡ []
  pub text_print :
      (path written : List ℕ) (w w' : os.World)
      → stdio.print path written w ≡ (true, w')
      → text path w' ≡ text path w ++ written
  pub text_fflush :
      (path : List ℕ) (w w' : os.World)
      → stdio.fflush path w ≡ (true, w')
      → text path w' ≡ text path w
  pub file_fclose :
      (path : List ℕ) (w w' : os.World)
      → stdio.fclose path w ≡ (true, w')
      → file path w' ≡ text path w
  pub file_close : (path : List ℕ) (fd : ℕ) (w : os.World) → file path (os.close fd w) ≡ file path w
  pub read_back :
      (path got : List ℕ) (w w' : os.World)
      → stdio.read_text path w ≡ (some got, w')
      → got ≡ file path w
