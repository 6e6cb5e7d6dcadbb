-- ===== src/ConnectFile.antt =====
-- The text of a user's `connect` file: what `write_connection` prints and what the two calls
-- `fscanf(file, "%s\n%d\n", address, port)` of servidor_handle.c read.
mod Decimal
mod Scan
pub mod RoundTrip
unfoldable pub use Decimal.{decimal, print_int}
unfoldable pub use Scan.{scan_int, scan_connection}
