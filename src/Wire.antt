-- ===== src/Wire.antt =====
-- The protocol of the control connection (src/protocol/common.ts, decode.ts, encode.ts and messages.ts):
-- the values that JSON has (Values), the reading of a property (Reading, Kinds, Readers, Arrays,
-- Trim, Choices) and of an object (Parts, Pairs, Objects), the declared types (Shapes, Types, Fits), the
-- messages (Messages, Table), decoding and encoding (Decode, Encode). Inversion, Properties, Finite, Sent
-- and Nodes hold the lemmas for RoundTrip, Typed, Accepted, Refused and Bounded.
pub mod Values
pub mod Shapes
pub mod Reading
pub mod Kinds
pub mod Readers
pub mod Arrays
pub mod Trim
pub mod Parts
pub mod Pairs
pub mod Choices
pub mod Objects
pub mod Types
pub mod Messages
pub mod Table
pub mod Decode
pub mod Encode
pub mod Inversion
pub mod Finite
pub mod Fits
pub mod Sent
pub mod Properties
pub mod Nodes
pub mod RoundTrip
pub mod Typed
pub mod Accepted
pub mod Refused
pub mod Bounded
