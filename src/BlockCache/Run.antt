-- ===== src/BlockCache/Run.antt =====
-- Any sequence of reads and writes of blocks against the disk file alone.
use iitm.Prelude.{
  ℕ, ◌^◌, ◌<◌, ◌≡◌, refl, ap, ◌∙◌, Option, some, List, [], ◌∷◌, ◌>>=◌, length, Text, Returns,
  Returns-bind,
}
use iitm.Prelude.Int.{ℤ, pos}
use iitm.SortedList.{All}
use iitm.BlockCache.{Bytes, Malloc}
use iitm.BlockCache.Entries.{IsMalloc}
use iitm.BlockCache.Files.{
  block_size, DiskFile, FileSystem, Reading, offset, read_block, write_block,
}
use iitm.BlockCache.Disk.{Laws, Names, IsCoherent, Reads, Writes, disk_reading}
use iitm.BlockCache.Steps.{read_block-Reads, write_block-Writes}

pub data Request : Type 0 where
  read_request : ℕ → Request
  write_request : ℕ → Bytes → Request

pub data Answer : Type 0 where
  read_answer : Reading → Answer
  write_answer : ℤ → Answer

-- a block whose offset is an `int`, and a whole block of bytes
abbrev pub Fits : Request → Type 0
Fits (read_request i) = offset i < 2 ^ 31
Fits (write_request i bytes) = (offset i < 2 ^ 31) × (length bytes ≡ block_size)

module _ {Disk : Type 0} (file : DiskFile Disk) where
  -- the same requests on the disk, with no cache and no buffers
  abbrev pub serve_disk : Disk → Request → Answer × Disk
  serve_disk d (read_request i) = (read_answer (disk_reading (file.read_at d (offset i))), d)
  serve_disk d (write_request i bytes) = (write_answer (pos 0), file.write_at d (offset i) bytes)

  unfoldable pub run_disk : List (Malloc × Request) → Disk → List Answer × Disk
  run_disk [] d = ([], d)
  run_disk ((malloc, q) ∷ qs) d =
      let (a, d') = serve_disk d q in let (as', d'') = run_disk qs d' in (a ∷ as', d'')

module _ {Disk : Type 0} (file : DiskFile Disk) (cache_key : ℕ → Text) where
  -- one request, with the call of malloc for a new entry
  abbrev pub serve : FileSystem Disk → Malloc × Request → Option (Answer × FileSystem Disk)
  serve fs (malloc, read_request i) =
      read_block file cache_key fs i malloc >>= λ r. some (read_answer r.0, r.1)
  serve fs (malloc, write_request i bytes) =
      write_block file cache_key fs i bytes malloc >>= λ r. some (write_answer r.0, r.1)

  unfoldable pub run :
      List (Malloc × Request) → FileSystem Disk → Option (List Answer × FileSystem Disk)
  run [] fs = some ([], fs)
  run (q ∷ qs) fs = do (a, fs) ← serve fs q; (as', fs) ← run qs fs; some (a ∷ as', fs)

module _ {Disk : Type 0} (file : DiskFile Disk) (cache_key : ℕ → Text) (laws : Laws file)
    (names : Names cache_key) where
  record Serves (fs : FileSystem Disk) (q : Request) (r : Answer × FileSystem Disk) : Type 0 where
    coherent : IsCoherent file cache_key laws names r.1
    answer : r.0 ≡ (serve_disk file fs.disk q).0
    disk : r.1.disk ≡ (serve_disk file fs.disk q).1

  serve-Serves :
      (fs : FileSystem Disk) (malloc : Malloc) (q : Request)
      → IsCoherent file cache_key laws names fs
      → IsMalloc malloc
      → Fits q
      → Returns (Serves fs q) (serve file cache_key fs (malloc, q))
  serve-Serves fs malloc (read_request i) co f p =
      Returns-bind (Reads file cache_key laws names fs i) (Serves fs (read_request i))
        (read_block file cache_key fs i malloc) _
        (read_block-Reads file cache_key laws names fs i malloc co f p)
        (λ r m. record { coherent = m.coherent; answer = ap read_answer m.reading; disk = m.disk })
  serve-Serves fs malloc (write_request i bytes) co f (p, long) =
      Returns-bind (Writes file cache_key laws names fs i bytes) (Serves fs (write_request i bytes))
        (write_block file cache_key fs i bytes malloc) _
        (write_block-Writes file cache_key laws names fs i bytes malloc co f long p)
        (λ r m. record { coherent = m.coherent; answer = ap write_answer m.code; disk = m.disk })

  -- what any requests do: their answers and the disk are as without cache and buffers
  pub record Agrees (qs : List (Malloc × Request)) (fs : FileSystem Disk)
      (r : List Answer × FileSystem Disk) : Type 0 where
    pub coherent : IsCoherent file cache_key laws names r.1
    pub answers : r.0 ≡ (run_disk file qs fs.disk).0
    pub disk : r.1.disk ≡ (run_disk file qs fs.disk).1

  -- From a file system whose cache has nothing but blocks of the disk and whose buffers are all free, any
  -- reads and writes of blocks end without a fault and leave such a file system: each is answered as by
  -- the disk alone, without the cache and the buffers, a read of a block that the disk does not have by a
  -- failure, and the disk is the same as then. The offsets are in `int`, what is written is a whole
  -- block, the disk keeps its laws, the names of two blocks differ, and malloc does not return the address
  -- of an entry that is still allocated.
  pub run-Agrees :
      (qs : List (Malloc × Request)) (fs : FileSystem Disk)
      → IsCoherent file cache_key laws names fs
      → All (λ q. IsMalloc q.0) qs
      → All (λ q. Fits q.1) qs
      → Returns (Agrees qs fs) (run file cache_key qs fs)
  unfolding run run_disk
  run-Agrees [] fs co f p = record { coherent = co; answers = refl; disk = refl }
  run-Agrees ((malloc, q) ∷ qs) fs co (f, fs') (p, ps) =
      Returns-bind (Serves fs q) (Agrees ((malloc, q) ∷ qs) fs)
        (serve file cache_key fs (malloc, q)) _ (serve-Serves fs malloc q co f p)
        (λ (a, fs₁) s.
          Returns-bind (Agrees qs fs₁) (Agrees ((malloc, q) ∷ qs) fs) (run file cache_key qs fs₁) _
            (run-Agrees qs fs₁ s.coherent fs' ps) (λ r' t. after (a, fs₁) s r' t))
    where
      after :
          (r : Answer × FileSystem Disk)
          → Serves fs q r
          → (r' : List Answer × FileSystem Disk) → Agrees qs r.1 r'
          → Agrees ((malloc, q) ∷ qs) fs (r.0 ∷ r'.0, r'.1)
      after (a, fs₁) s (as', fs₂) t = record {
        coherent = t.coherent;
        answers = cc (s.answer, t.answers, s.disk);
        disk = t.disk ∙ ap (λ d. (run_disk file qs d).1) s.disk;
      }
