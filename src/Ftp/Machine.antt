-- ===== src/Ftp/Machine.antt =====
-- What an FTP session uses of its host: the sockets and the file system. Each operation is a function
-- on the state `W` of the host.
use espp.Prelude.{ℕ, Bool, Option, List}

-- `accept`: no socket, a socket that is not valid, or one that is.
pub data Accepted : Type 0 where
  refused invalid accepted : Accepted

pub data FileType : Type 0 where
  directory regular other : FileType

-- An entry of a directory: `status` is `none` if it cannot be read. The time is the text that
-- `strftime` makes of it, `none` if it cannot be read; a time that `localtime` cannot convert is not
-- modelled.
pub record FileStatus : Type 0 where
  pub type : FileType
  pub permissions : ℕ
  pub file_size : ℕ
  pub time : Option (List ℕ)

pub record Entry : Type 0 where
  pub name : List ℕ
  pub status : Option FileStatus

pub record Host (W : Type 0) : Type 0 where
  -- the control connection
  pub is_connected : W → Bool
  pub receive : W → Option (List ℕ) × W
  pub transmit : List ℕ → W → Bool × W
  pub close : W → W
  -- the passive socket
  pub random : W → ℕ × W
  pub reinit : W → W
  pub bind : ℕ → W → Bool × W
  pub listen : W → Bool × W
  pub is_valid : W → Bool
  pub accept : W → Accepted × W
  -- the data connection; `incoming` is what each call of `receive` gives, an empty one at the end
  pub connect : List ℕ → ℕ → W → Bool × W
  pub data_transmit : List ℕ → W → Bool × W
  pub incoming : W → List (List ℕ) × W
  pub data_close : W → W
  -- the file system
  -- `exists`, `is_directory` and `is_regular_file` without an error code: `none` is an exception
  pub exists : List ℕ → W → Option Bool
  pub is_directory : List ℕ → W → Option Bool
  pub is_regular_file : List ℕ → W → Option Bool
  pub size_of : List ℕ → W → Option ℕ
  pub read_file : List ℕ → W → Option (List ℕ)
  pub open_for_writing : List ℕ → W → Bool × W
  pub append_to : List ℕ → List ℕ → W → W
  pub unlink : List ℕ → W → Bool × W
  pub rmdir : List ℕ → W → Bool × W
  -- `none` is an exception
  pub create_directory : List ℕ → W → Option W
  pub rename : List ℕ → List ℕ → W → Bool × W
  -- `none` if the directory cannot be opened
  pub entries : List ℕ → W → Option (List Entry)
