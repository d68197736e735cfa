-- ===== src/Lib.antt =====
-- A model of ZEPboot, a boot loader that swaps the images of two slots of flash, and theorems on it.
--
-- At each start `main` (Boot, for bootloader/src/main.c) goes through the slot areas of the slot map
-- (Board). For each area zb_img_swap (Swap/Request) decides from the commands in flash whether a
-- swap goes on, is requested or is to be undone, and zb_img_cmd_proc (Swap/Proc) does it command by
-- command. The commands and the boot parameters stay in flash, so that a swap goes on after a power
-- failure. Then the image of slot 0 or slot 1 is tested and started.
--
-- Which file models what, from the repository's root:
--   Board     the slot areas of zepboot/src/zb_flash.c, the sizes of zepboot/include/zb_flash.h and
--             the rows of bootloader/src/slotmap.c; Board/Bind is on the devices of a row
--   Flash     zb_flash_read, zb_flash_write, zb_flash_erase and the alignment of
--             zepboot/src/zb_flash.c; Flash/Align, Flash/Write and Flash/Room
--             have the proofs
--   Cmd       the command log of zepboot/src/zb_flash.c; Cmd/Log is the abstract log, Cmd/Read and
--             Cmd/Write are on the two loops, Cmd/Append, Cmd/Kept and Cmd/Erase on the operations
--   Prm       the boot parameters of zepboot/src/zb_flash.c; Prm/RoundTrip
--   Aes       zepboot/src/zb_aes.c; Aes/Counter, Aes/Stream and Aes/Laws
--   Ec256     zepboot/src/zb_ec256.c: keys, signatures, hashes and checksums; Ec256/Verify is on the
--             root keys, Ec256/Checksum on the checksum of a range, Ec256/Digest on its hash, and
--             Ec256/Blocks on the reads of both
--   Tlv       zepboot/src/zb_tlv.c: the type-length-value area; Tlv/Find is on the search in it,
--             which is a loop of zb_img_get_info, and Tlv/Signed on its signature
--   Image     zepboot/src/zb_image.c: what is known of an image, and whether it may be installed;
--             Image/Check is on the latter, Image/Hashed on its hash, Image/Place on where an
--             image is said to be, and Image/Version on versions as numbers
--   Move      zb_img_move, its callers and the sector operations of zepboot/src/zb_move.c;
--             Move/Chunk and Move/Turn are on one turn of the loop, Move/Copy, with Move/Paste,
--             and Move/Ram on the whole move
--   Swap      the rest of zepboot/src/zb_move.c. Swap/Steps is a machine on phases and sectors,
--             Swap/Order says that the switch implements it, Swap/End is on the end of a swap, and
--             Swap/Endless on images of more sectors than a byte counts.
--             Swap/Sector, Swap/Slots and Swap/Transfers are on the erase and the move of one
--             command, Swap/Lift, Swap/Content, Swap/Halfway and Swap/Turns on what the slots hold
--             between two commands, Swap/Reach on getting to phase 3, Swap/InPlace on the turns of a
--             swap in place, Swap/Exchange on those of a swap that is not, and Swap/Torn on a turn that was
--             cut off; Swap/Restart is on the image information after a restart, and Swap/Cause on
--             why zb_img_swap swaps. Swap/Loop and Swap/Finish are on the loop of zb_img_cmd_proc
--             and the swap status that it reads and appends to, Swap/Frame, Swap/Stable, Swap/Stays
--             and Swap/Layout on what does not touch what, Swap/Ends and Swap/Record on phase 3 and
--             phase 4. Swap/Kept and Swap/Whole take the loop from the first command to the last for
--             any statement that the turns keep; Swap/Classic and Swap/Complete are on a swap that is
--             not in place, Swap/Settle on one in place, Swap/Full on a swap status without room.
--             Swap/Begin and Swap/Begun are on how a swap begins, Swap/Requested on zb_img_swap with
--             a request, and Swap/Undone on a swap that is undone
--   Boot      `main` of bootloader/src/main.c; Boot/Tested is on what is done
--             before an image is started, and Boot/First on the area that it is of
--   Platform  what the code calls: the flash driver of Zephyr and its checksums. Platform/Laws has
--             the laws of the driver, and Platform/Sim a simulated chip that has them.
--   TinyCrypt the functions of TinyCrypt and the keys of bootloader/src/keys.c
-- Base has the numbers, lists, words and bits, and the Tests modules have concrete runs.
--
-- A function is a function of its arguments, the flash, and what its local and output variables
-- hold before they are set. It returns the code, the output variables and the flash. The flash is a
-- state of any type `S`, with the operations of the record Flash, which the theorems restrict by
-- FlashLaws: a whole read returns the cells, a write to blank cells at block boundaries writes them,
-- an erase of whole pages blanks them. `size_t`, `off_t` and `u32_t` are numbers with the wrap to
-- 32 bits written out (add32, sub32, mul32). `off_t` is a signed type, and the offsets are taken to
-- be below 2 ^ 31, where the signed and the unsigned words are the same.
--
-- Loops run on fuel where they are not structural. The loops over flash and over the areas have the
-- length of what they go over and one more, which suffices since each turn goes forward; a loop that
-- uses up its fuel answers `stuck` or `none`, a code that no other branch has. The loop of
-- zb_img_cmd_proc has its fuel as an argument, since the code goes on without end when a command
-- cannot be written.
--
-- Not modelled are log messages, the jump to the image in do_boot (it is the outcome `boots`), the
-- scripts under scripts/ that make images, and the tests. The cipher, the hash, the curve and the
-- checksums are parameters.
mod Base
pub mod Platform
pub mod Board
pub mod Flash
pub mod Cmd
pub mod Prm
pub mod Aes
pub mod TinyCrypt
pub mod Ec256
pub mod Tlv
pub mod Image
pub mod Move
pub mod Swap
pub mod Boot
